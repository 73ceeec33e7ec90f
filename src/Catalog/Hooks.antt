-- ===== src/Catalog/Hooks.antt =====
-- The hooks of `save_resource` of catalog_service/src/management.py. The digest that `blob` gives is an
-- argument.
use Prim.Native.String.{count}
use opencode_cloud.Prelude.{
  ℕ, String, Bool, not, List, [], ◌==◌, ◌||◌, ◌+◌, ltb, put, if◌then◌else◌,
}
use opencode_cloud.Json.{Json, text, object, Fields, end, field, value_of, entry_or, size}
use opencode_cloud.Catalog.Documents.{Draft}
use opencode_cloud.Catalog.Replies.{Reply, ok, fail, crash, ◌>>=◌}
use opencode_cloud.Catalog.Edits.{is_some}
use opencode_cloud.Catalog.Files.{relative_file, suffix}

-- len(s) and s.encode of a source, which is a text.
abbrev source_size : Json → Reply ℕ
source_size (text s) = ok (count s)
source_size _ = crash

unfoldable pub total_size : Fields → Reply ℕ
total_size end = ok 0
total_size (field p s rest) = source_size s >>= λ n. total_size rest >>= λ m. ok (n + m)

abbrev is_source : String → Bool
is_source entry = suffix entry == ".js" || (suffix entry == ".mjs" || suffix entry == ".ts")

abbrev member : String → Fields → Bool
member key fields = is_some (value_of key fields)

abbrev entry_text : Json → Reply String
entry_text (text s) = ok s
entry_text _ = fail 400 "Invalid resource file path"

-- content.get("sources", {entry: content.get("source", "")})
abbrev sources_of : String → Json → Json
sources_of entry content =
    entry_or (object (field entry (entry_or (text "") "source" content) end)) "sources" content

module _ (blob : String → String) where
  -- {relative_file(p): self.blob(s.encode("utf-8")) for p, s in sources.items()}
  unfoldable pub hook_files : Fields → List (String × String) → Reply (List (String × String))
  hook_files end files = ok files
  hook_files (field p (text s) rest) files =
      relative_file p >>= λ path. hook_files rest (put path (blob s) files)
  hook_files (field p _ rest) files = crash

  -- The sources of a hook, once its entry is a path. Sources that are no dictionary raise.
  abbrev pub hook_sources : String → Json → Reply Draft
  hook_sources entry (object sources) =
      if not (is_source entry) || not (member entry sources)
      then fail 400 "Hook entry must be a JS/MJS/TS source file"
      else total_size sources >>= λ total.
          if ltb 50 (size sources) || ltb 1_048_576 total
          then fail 400 "Hook source limit exceeded"
          else hook_files sources [] >>= λ files. ok (record {
            content = object (field "entry" (text entry) (field "sources" (object sources) end));
            files = files;
          })
  hook_sources entry _ = crash

  unfoldable pub hook_draft : Json → Reply Draft
  hook_draft content = entry_text (entry_or (text "hook.mjs") "entry" content) >>= λ given.
      relative_file given >>= λ entry. hook_sources entry (sources_of entry content)
