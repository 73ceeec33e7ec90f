-- ===== src/Catalog/Resources.antt =====
-- The resources that agents bind: `save_resource`, `resource_lifecycle`, `upload_skill` and the copy
-- and the publication of catalog_service/src/management.py and catalog_service/src/admin_api.py.
-- The digest that `blob` gives, the validation of an MCP configuration and the unpacking of an
-- upload are arguments.
use opencode_cloud.Prelude.{
  ℕ, String, Bool, true, false, not, Option, none, some, List, [], ◌∷◌, ◌++◌, ◌==◌, ◌&&◌, ◌||◌, ◌+◌,
  eqb, opt_eq, any, length, lookup, put, erase, truthy, if◌then◌else◌,
}
use opencode_cloud.Json.{Json, object, end, json_eq}
use opencode_cloud.Catalog.Documents.{Config, Draft, Resource, Agent, Data}
use opencode_cloud.Catalog.Replies.{Reply, Done, done, ok, fail, ◌>>=◌}
use opencode_cloud.Catalog.Edits.{has, is_ending}
use opencode_cloud.Catalog.Names.{identifier}
use opencode_cloud.Catalog.Hooks.{hook_draft}
use opencode_cloud.Catalog.Secrets.{preserve_secrets}

-- The checked request: pydantic leaves the kind to be one of three.
pub record Request : Type 0 where
  pub kind : String
  pub name : String
  pub owner : Option String
  pub archived : Bool
  pub content : Json

-- value.get("owner") or None
abbrev owner_of : Request → Option String
owner_of v = if truthy v.owner then v.owner else none

abbrev is_kind : String → Bool
is_kind kind = kind == "skill" || (kind == "mcp" || kind == "hook")

abbrev pub no_data : Json
no_data = object end

abbrev drafted : Option Resource → Json
drafted none = no_data
drafted (some r) = r.draft.content

abbrev old_files : Option Resource → List (String × String)
old_files none = []
old_files (some r) = r.draft.files

-- The owner exists and is not about to be deleted.
abbrev missing_owner : Data → Option String → Bool
missing_owner d none = false
missing_owner d (some aid) = not (has aid d.agents)

abbrev ending_owner : Data → Option String → Bool
ending_owner d none = false
ending_owner d (some aid) = is_ending d aid

abbrev pub new_resource : String → String → String → Option String → Draft → Resource
new_resource rid kind name owner draft = record {
  id = rid;
  name = name;
  kind = kind;
  owner = owner;
  archived = false;
  draft = draft;
  versions = [];
}

-- `old.update(...)` keeps the identity, the kind, the owner and the versions.
abbrev pub updated : String → Request → Draft → Option Resource → Resource
updated rid v draft none = new_resource rid v.kind v.name (owner_of v) draft
updated rid v draft (some old) = record old { name = v.name; archived = v.archived; draft = draft }

-- Another kind or owner than those of the old resource.
abbrev pub reassigned : String → Option String → Option Resource → Bool
reassigned kind owner none = false
reassigned kind owner (some old) = not (old.kind == kind) || not (opt_eq old.owner owner)

abbrev pub set_resource : String → Resource → Data → Data
set_resource rid r d = record d { resources = put rid r d.resources }

module _ (blob : String → String) where
  module _ (validate_mcp : Json → Reply Json) where
    -- The draft that a request asks for.
    unfoldable pub draft_of : Request → Option Resource → Reply Draft
    draft_of v old =
        let content : Json = preserve_secrets v.content (drafted old) in
        if v.kind == "mcp"
        then (validate_mcp content >>= λ checked.
            ok (record { content = checked; files = old_files old }))
        else if v.kind == "hook"
        then hook_draft blob content
        else elim old [
          | none ↦ fail 400 "Create Skill resources using the upload endpoint"
          | some r ↦ ok (record { content = content; files = r.draft.files })
        ]

    unfoldable pub save_resource : String → Request → Data → Reply (Done × Data)
    save_resource rid v d =
        let old : Option Resource = lookup rid d.resources in
        identifier rid >>= λ _.
        if not (is_kind v.kind)
        then fail 400 "Invalid resource kind"
        else if missing_owner d (owner_of v)
        then fail 400 "Owner Agent does not exist"
        else if ending_owner d (owner_of v)
        then fail 409 "Agent deletion is in progress"
        else if reassigned v.kind (owner_of v) old
        then fail 400 "Resource kind and ownership are immutable"
        else identifier v.name >>= λ _.
            draft_of v old >>= λ draft. ok (done, set_resource rid (updated rid v draft old) d)

abbrev pub binds : String → Config → Bool
binds rid cfg = any (λ b. b.id == rid) cfg.bindings

-- The draft or a version of the agent binds the resource.
abbrev pub refers : String → Agent → Bool
refers rid a = binds rid a.draft || any (λ v. binds rid v.config) a.versions

abbrev pub referenced : String → Data → Bool
referenced rid d =
    any (λ row. refers rid row.1) d.agents || any (λ row. binds rid row.1.config) d.agent_templates

abbrev pub in_use : String
in_use = "资源仍被草稿、已发布版本或历史版本引用，不能删除："

-- The detail of the last refusal is given without the names of what refers to the resource.
unfoldable pub resource_lifecycle : String → String → Data → Reply (Done × Data)
resource_lifecycle rid action d = elim (lookup rid d.resources) [
  | none ↦ fail 404 "Resource not found"
  | some r ↦
      if action == "archive" || action == "restore"
      then ok (done, set_resource rid (record r { archived = action == "archive" }) d)
      else if not (action == "delete")
      then fail 400 "Unknown resource action"
      else if not r.archived
      then fail 409 "请先归档资源，再永久删除"
      else if referenced rid d
      then fail 409 in_use
      else ok (done, record d { resources = erase rid d.resources })
]

-- An upload that was unpacked: the metadata and the digests of the files.
abbrev pub uploaded : String → Option String → String → Draft → Option Resource → Resource
uploaded rid owner name draft none = new_resource rid "skill" name owner draft
uploaded rid owner name draft (some old) = record old { name = name; draft = draft }

unfoldable pub upload_skill : String → Option String → String → Draft → Data → Reply (Done × Data)
upload_skill rid owner name draft d =
    let old : Option Resource = lookup rid d.resources in
    identifier rid >>= λ _.
    if missing_owner d owner
    then fail 400 "Unknown owner"
    else if ending_owner d owner
    then fail 409 "Agent deletion is in progress"
    else if reassigned "skill" owner old
    then fail 400 "Resource kind and owner cannot change"
    else ok (done, set_resource rid (uploaded rid owner name draft old) d)

-- copy_resource of admin_api.py
unfoldable pub copy_resource : String → String → Option String → Data → Reply (Done × Data)
copy_resource resource_id rid owner d = identifier rid >>= λ _.
    elim (lookup resource_id d.resources) [
      | none ↦ fail 409 "Invalid source or duplicate destination"
      | some r ↦
          if has rid d.resources
          then fail 409 "Invalid source or duplicate destination"
          else if missing_owner d owner
          then fail 404 "Unknown owner Agent"
          else ok
              (done, set_resource rid (record r { id = rid; owner = owner; archived = false }) d)
    ]

abbrev pub next_version : ℕ → Draft → Resource → Resource
next_version now checked r = record r {
  versions =
      r.versions ++ record { version = length r.versions + 1; created = now; draft = checked } ∷ [];
}

-- Whether each file of the one is in the other with the same digest.
abbrev files_within : List (String × String) → List (String × String) → Bool
files_within [] files = true
files_within ((path, digest) ∷ rest) files =
    opt_eq (lookup path files) (some digest) && files_within rest files

abbrev pub draft_eq : Draft → Draft → Bool
draft_eq a b =
    json_eq a.content b.content
    && (eqb (length a.files) (length b.files) && files_within a.files b.files)

-- The end of `publish` of admin_api.py: `original` is the draft that was read, and `checked` is
-- what the validation made of it.
unfoldable pub publish : String → Draft → Draft → ℕ → Data → Reply (ℕ × Data)
publish rid original checked now d = elim (lookup rid d.resources) [
  | none ↦ fail 409 "Draft changed during validation"
  | some r ↦
      if r.archived || not (draft_eq r.draft original)
      then fail 409 "Draft changed during validation"
      else ok (length r.versions + 1, set_resource rid (next_version now checked r) d)
]

-- ManagementStore.publish_resource
unfoldable pub publish_resource : String → Draft → ℕ → Data → Reply (ℕ × Data)
publish_resource rid checked now d = elim (lookup rid d.resources) [
  | none ↦ fail 409 "Draft changed during validation; retry"
  | some r ↦
      if not (draft_eq r.draft checked)
      then fail 409 "Draft changed during validation; retry"
      else ok (length r.versions + 1, set_resource rid (next_version now checked r) d)
]
