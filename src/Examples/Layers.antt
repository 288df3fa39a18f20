-- ===== src/Examples/Layers.antt =====
-- An example of the layered store (internal/control/policies/layered_store.go): a file that an edit
-- overrides, with a table of policies as the store of edits.
use bouncer.Base.{
  ◌≡◌, refl, ap, ◌∙◌, Bool, false, ◌&&◌, Option, none, some, List, [], ◌∷◌, ◌++◌, arith,
  if◌then◌else◌, Str, bytes, str_eq, str_eq_iff, ok, ok-injective,
}
use bouncer.Models.{Policy, deny, validate_result}
use bouncer.PolicyStore
use bouncer.PolicyStore.Named.{count}
use bouncer.PolicyRuntime.{
  find_api, set_store, replace_policy, replace_in, put_store, compile, new_policy,
}
use bouncer.PolicyService.{Durable, Service, load_from_store, replay, apply_policy}
use bouncer.PolicyService.Boot.{HasTables, live, load_from_store-live}
use bouncer.PolicyService.Layers.{
  has_key, or_else, last_of, list, layered_store, Edit, put_edit, delete_edit, apply_edit, edited,
  TableLaws, last_of-append, defines, put, delete,
}
use bouncer.PolicyService.Layered.{layered-edit}
use bouncer.Examples.Service.{drive_policy, keep_source}

unfoldable without_key : Str → Str → List Policy → List Policy
without_key api name [] = []
without_key api name (p ∷ ps) =
    let rest = without_key api name ps in if has_key api name p then rest else p ∷ rest

-- A later row of a key replaces the earlier ones.
abbrev table_store : Durable
table_store = record {
  Rows = List Policy;
  Error = Str;
  list = λ rows. ok rows;
  put = λ rows p. (none, rows ++ (p ∷ []));
  delete = λ rows api name. (none, without_key api name rows);
}

last_of-without_key :
    (a n : Str) (ps : List Policy) (api name : Str)
    → last_of (without_key a n ps) api name
      ≡ (if str_eq a api && str_eq n name then none else last_of ps api name)
unfolding without_key last_of
last_of-without_key a n [] api name = ground arith
last_of-without_key a n (p ∷ ps) api name = ground (
  arith,
  last_of-without_key a n ps api name,
  str_eq_iff a api,
  str_eq_iff n name,
  str_eq_iff p.api a,
  str_eq_iff p.name n,
  str_eq_iff p.api api,
  str_eq_iff p.name name,
)

over_one :
    (b : Bool) (p : Policy) (o : Option Policy)
    → or_else (if b then some p else none) o ≡ (if b then some p else o)
over_one b p o = ground arith

table_edited :
    (rows : List Policy) (edit : Edit) (api name : Str)
    → last_of (apply_edit table_store rows edit).1 api name ≡ edited edit (last_of rows) api name
unfolding apply_edit last_of
table_edited rows (put_edit p) api name =
    last_of-append rows (p ∷ []) api name ∙ over_one (has_key api name p) p (last_of rows api name)
table_edited rows (delete_edit a n) api name = last_of-without_key a n rows api name

table_store-laws : TableLaws table_store
unfolding apply_edit
table_store-laws = record {
  list-edit = λ rows edit ps h l. (
    (apply_edit table_store rows edit).1,
    refl,
    λ api name.
        table_edited rows edit api name
        ∙ ap (λ (qs : List Policy). edited edit (last_of qs) api name) (ok-injective l),
  );
}

abbrev denial : Policy
denial = record drive_policy { result = deny }

-- The file permits, an edit denies.
layered-edit_example :
    (ps' : List Policy) × (list table_store table_store
        (apply_edit
          (layered_store table_store table_store)
          ([], drive_policy ∷ [])
          (put_edit denial)).1
      ≡ ok ps')
    × ((api name : Str)
        → last_of ps' api name ≡ edited (put_edit denial) (last_of (drive_policy ∷ [])) api name)
layered-edit_example =
    layered-edit table_store table_store table_store-laws [] (drive_policy ∷ []) (put_edit denial)
      (drive_policy ∷ []) (unfold apply_edit put in refl) (unfold list in refl)

-- The deletion of the file's policy is refused, with an override and without.
file_kept :
    (delete table_store table_store ([], drive_policy ∷ []) (bytes "drive") (bytes "read")).1
    ≡ ([], drive_policy ∷ [])
unfolding delete defines str_eq
file_kept = refl

-- At boot, from the file and the edit.
abbrev booting : Service keep_source (layered_store table_store table_store)
booting = record {
  readonly = false;
  rows = (denial ∷ [], drive_policy ∷ []);
  apis = record { name = bytes "drive"; store = record { deny = []; permit = [] } } ∷ [];
}

booting-HasTables : HasTables booting.apis
unfolding count
booting-HasTables = ((λ name. omega arith), tt)

booted : (load_from_store keep_source (layered_store table_store table_store) booting).0 ≡ ok tt
unfolding load_from_store list replay apply_policy replace_policy find_api replace_in compile
    new_policy validate_result put_store set_store str_eq PolicyStore.replace
booted = refl

load_from_store-live_example :
    (ps : List Policy) × (list table_store table_store (denial ∷ [], drive_policy ∷ []) ≡ ok ps)
    × ((api name : Str)
        → live
            (load_from_store keep_source (layered_store table_store table_store) booting).1.apis
            api
            name
          ≡ or_else (last_of ps api name) (live booting.apis api name))
load_from_store-live_example =
    load_from_store-live keep_source (layered_store table_store table_store) booting
      booting-HasTables booted
