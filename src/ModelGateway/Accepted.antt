-- ===== src/ModelGateway/Accepted.antt =====
-- What model_gateway/src/state.py has checked of a release that it accepts.
use opencode_cloud.Prelude.{
  String, ℕ, Bool, true, false, not, ◌&&◌, ◌||◌, Option, none, some, List, [], ◌∷◌, ◌≡◌, ◌≤◌, ◌↔◌,
  refl, arith, ltb, length, any, All, All-map, Distinct, if◌then◌else◌,
}
use opencode_cloud.Json.{Json, entry_or, entry, is_object, is_text, filled, json_eq}
use opencode_cloud.ModelGateway.Releases.{
  Outcome, done, refused, no_entries, is_null, elements, identifier, well_shaped, has_model,
  complaint, is_named, has_models, conclude, validate_release,
}

abbrev has_identifier : Json → Bool
has_identifier d = is_null (identifier d) || is_text (identifier d)

-- An entry repeats the identifier of one before it.
abbrev pub repeats : Json → Json → Bool
repeats earlier later = filled (identifier later) && json_eq (identifier later) (identifier earlier)

abbrev pub Deployment : Json → Type 0
Deployment d =
    (well_shaped d ≡ true)
    × (has_model d ≡ true)
    × ((is_null (identifier d) || is_text (identifier d)) ≡ true)

pub record Accepted (payload : Json) : Type 0 where
  pub named : is_named payload ≡ true
  pub listed : has_models (entry "configuration" payload) ≡ true
  pub few : length (elements (entry "model_list" (entry "configuration" payload))) ≤ 1000
  pub settled :
      is_object (entry_or no_entries "router_settings" (entry "configuration" payload)) ≡ true
  pub deployments : All Deployment (elements (entry "model_list" (entry "configuration" payload)))
  pub unique : Distinct repeats (elements (entry "model_list" (entry "configuration" payload)))

abbrev fresh : List Json → Json → Bool
fresh ids d = filled (identifier d) && any (json_eq (identifier d)) ids

complaint_later :
    (d : Json) (rest ids : List Json)
    → complaint (d ∷ rest) ids ≡ none
    → Deployment d × (fresh ids d ≡ false) × (complaint rest (identifier d ∷ ids) ≡ none)
unfolding complaint
complaint_later d rest ids e =
    by_cases (well_shaped d) (has_model d) (is_null (identifier d)) (is_text (identifier d))
      (fresh ids d) (complaint rest (identifier d ∷ ids)) e
  where
    by_cases :
        (shaped model absent text again : Bool) (later : Option String)
        → (if not shaped
            then some "Invalid model deployment"
            else if not model
            then some "Each deployment requires model_name and litellm_params.model"
            else if not absent && not text
            then some "Deployment id must be a string"
            else if again
            then some "Duplicate deployment id"
            else later)
          ≡ none
        → ((shaped ≡ true) × (model ≡ true) × ((absent || text) ≡ true))
          × (again ≡ false)
          × (later ≡ none)
    by_cases shaped model absent text again later e = ground arith

fresh_split :
    (ids : List Json) (d x : Json)
    → fresh (identifier d ∷ ids) x ≡ false
    → (repeats d x ≡ false) × (fresh ids x ≡ false)
unfolding any
fresh_split ids d x e = split (filled (identifier x)) (json_eq (identifier x) (identifier d)) _ e
  where
    split : (f a b : Bool) → (f && (a || b)) ≡ false → ((f && a) ≡ false) × ((f && b) ≡ false)
    split f a b e = ground arith

fresh_join :
    (ids : List Json) (d : Json) (rest : List Json)
    → All (λ x. fresh ids x ≡ false) rest
    → All (λ x. repeats d x ≡ false) rest
    → All (λ x. fresh (identifier d ∷ ids) x ≡ false) rest
unfolding any
fresh_join ids d [] h k = tt
fresh_join ids d (x ∷ rest) h k = (
  join (filled (identifier x)) (json_eq (identifier x) (identifier d)) _ k.0 h.0,
  fresh_join ids d rest h.1 k.1,
)
  where
    join : (f a b : Bool) → (f && a) ≡ false → (f && b) ≡ false → (f && (a || b)) ≡ false
    join f a b p q = ground arith

complaint-none :
    (ds ids : List Json)
    → complaint ds ids ≡ none
    → All Deployment ds × All (λ d. fresh ids d ≡ false) ds × Distinct repeats ds
complaint-none [] ids e = (tt, tt, tt)
complaint-none (d ∷ rest) ids e =
    let (shape, new, later) = complaint_later d rest ids e in
    let (shapes, news, distinct) = complaint-none rest (identifier d ∷ ids) later in
    (
      (shape, shapes),
      (
        new,
        All-map (λ x. fresh (identifier d ∷ ids) x ≡ false) (λ x. fresh ids x ≡ false) rest
            (λ x h. (fresh_split ids d x h).1) news,
      ),
      (
        All-map (λ x. fresh (identifier d ∷ ids) x ≡ false) (λ x. repeats d x ≡ false) rest
            (λ x h. (fresh_split ids d x h).0) news,
        distinct,
      ),
    )

none-complaint :
    (ds ids : List Json)
    → All Deployment ds
    → All (λ d. fresh ids d ≡ false) ds
    → Distinct repeats ds
    → complaint ds ids ≡ none
unfolding complaint
none-complaint [] ids shapes news distinct = refl
none-complaint (d ∷ rest) ids shapes news distinct =
    let (shaped, model, identified) = shapes.0 in
    let later =
      none-complaint rest (identifier d ∷ ids) shapes.1 (fresh_join ids d rest news.1 distinct.0)
        distinct.1 in
    rw shaped
      (rw model (rw (news.0) (rw later (joined "Deployment id must be a string" _ _ identified))))
  where
    joined :
        (detail : String) (a t : Bool)
        → (a || t) ≡ true
        → (if not a && not t then some detail else none) ≡ none
    joined detail a t e = ground arith

no_repeat : (ds : List Json) → All (λ d. fresh [] d ≡ false) ds
unfolding any
no_repeat [] = tt
no_repeat (d ∷ rest) = (ground arith, no_repeat rest)

-- A release is accepted, and returned as it is, exactly if it is an object with a filled text as
-- release_id and a configuration of at most 1000 deployments, with settings that are an object, where
-- each deployment has its parts and no deployment has the identifier of one before it.
pub validate_release-Accepted :
    (payload release : Json)
    → (validate_release payload ≡ done release) ↔ ((release ≡ payload) × Accepted payload)
unfolding validate_release
validate_release-Accepted payload release = (sound, complete)
  where
    config : Json
    config = entry "configuration" payload

    ds : List Json
    ds = elements (entry "model_list" config)

    outcome : Bool → Bool → Bool → Bool → Option String → Outcome Json
    outcome named listed many settled c =
        if not named
        then refused 422 "release_id is required"
        else if not listed
        then refused 422 "configuration.model_list is required"
        else if many
        then refused 422 "Too many model deployments"
        else if not settled
        then refused 422 "router_settings must be an object"
        else conclude payload c

    passed :
        (named listed many settled : Bool) (c : Option String)
        → outcome named listed many settled c ≡ done release
        → (named ≡ true)
          × (listed ≡ true)
          × (many ≡ false)
          × (settled ≡ true)
          × (c ≡ none)
          × (release ≡ payload)
    passed named listed many settled none e = ground arith
    passed named listed many settled (some d) e = absurd (ground arith)

    many : Bool
    many = ltb 1000 (length ds)

    settled : Bool
    settled = is_object (entry_or no_entries "router_settings" config)

    few_of : (n : ℕ) → ltb 1000 n ≡ false → n ≤ 1000
    few_of n e = ground arith

    not_many : (n : ℕ) → n ≤ 1000 → ltb 1000 n ≡ false
    not_many n e = ground arith

    sound : validate_release payload ≡ done release → (release ≡ payload) × Accepted payload
    sound e =
        let (named, listed, few, settings, clean, same) =
          passed (is_named payload) (has_models config) many settled (complaint ds []) e in
        let (shapes, news, distinct) = complaint-none ds [] clean in
        (
          same,
          record {
            named = named;
            listed = listed;
            few = few_of (length ds) few;
            settled = settings;
            deployments = shapes;
            unique = distinct;
          },
        )

    complete : (release ≡ payload) × Accepted payload → validate_release payload ≡ done release
    complete (same, a) = rw (a.named) (
        rw (a.listed) (
          rw (not_many _ a.few) (
            rw (a.settled)
              (rw (none-complaint ds [] a.deployments (no_repeat ds) a.unique) (rw same refl)))))
