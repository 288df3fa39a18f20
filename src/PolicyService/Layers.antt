-- ===== src/PolicyService/Layers.antt =====
-- The layered store (internal/control/policies/layered_store.go): read-only policy files below a
-- writable store, and how it serves the service as a table of policies.
use bouncer.Base.{
  ◌≡◌, refl, Bool, false, ◌&&◌, ◌||◌, Option, none, some, List, [], ◌∷◌, ◌++◌, arith, if◌then◌else◌,
  Str, str_eq, Outcome, ok, err, ◌>>=◌, map_err,
}
use bouncer.Models.{Policy}
use bouncer.PolicyService.{Durable}

-- What a key stands for.
abbrev pub View : Type 0
View = Str → Str → Option Policy

abbrev pub or_else : Option Policy → Option Policy → Option Policy
or_else none o = o
or_else (some p) o = some p

abbrev pub has_key : Str → Str → Policy → Bool
has_key api name p = str_eq p.api api && str_eq p.name name

-- The last policy of the key, which is the one that is live when the list was replayed.
unfoldable pub last_of : List Policy → View
last_of [] api name = none
last_of (p ∷ ps) api name =
    or_else (last_of ps api name) (if has_key api name p then some p else none)

-- The loop of `LayeredStore.Delete`.
unfoldable pub defines : List Policy → Str → Str → Bool
defines [] api name = false
defines (p ∷ ps) api name = has_key api name p || defines ps api name

pub data LayerError (E F : Type 0) : Type 0 where
  primary_layer : E → LayerError E F
  seed_layer : F → LayerError E F
  defined_in_file : Str → Str → LayerError E F

abbrev pub primary_failure : {E F : Type 0} → Option E → Option (LayerError E F)
primary_failure none = none
primary_failure (some e) = some (primary_layer e)

module _ (primary seed : Durable) where
  abbrev Layers : Type 0
  Layers = primary.Rows × seed.Rows

  abbrev Failed : Type 0
  Failed = LayerError (primary.Error) (seed.Error)

  -- `List`
  unfoldable pub list : Layers → Outcome Failed (List Policy)
  list (rows, files) = do
    seeded ← map_err seed_layer (seed.list files)
    stored ← map_err primary_layer (primary.list rows)
    ok (seeded ++ stored)

  -- `Put`
  unfoldable pub put : Layers → Policy → Option Failed × Layers
  put (rows, files) p = let (e, rows') = primary.put rows p in (primary_failure e, (rows', files))

  -- `Delete`
  unfoldable pub delete : Layers → Str → Str → Option Failed × Layers
  delete (rows, files) api name = elim (seed.list files) [
    | err e ↦ (some (seed_layer e), (rows, files))
    | ok seeded ↦
        let (e, rows') = primary.delete rows api name in
        if defines seeded api name
        then (some (defined_in_file api name), (rows, files))
        else (primary_failure e, (rows', files))
  ]

  abbrev pub layered_store : Durable
  layered_store = record { Rows = Layers; Error = Failed; list = list; put = put; delete = delete }

pub data Edit : Type 0 where
  put_edit : Policy → Edit
  delete_edit : Str → Str → Edit

unfoldable pub apply_edit : (d : Durable) → d.Rows → Edit → Option (d.Error) × d.Rows
apply_edit d rows (put_edit p) = d.put rows p
apply_edit d rows (delete_edit api name) = d.delete rows api name

-- What an edit makes of a table.
abbrev pub edited : Edit → View → View
edited (put_edit p) v = λ api name. if has_key api name p then some p else v api name
edited (delete_edit a n) v = λ api name. if str_eq a api && str_eq n name then none else v api name

-- An edit that succeeds on a store that can be listed shows in its list, and nothing else does.
pub record TableLaws (d : Durable) : Type 0 where
  pub list-edit :
      (rows : d.Rows) (edit : Edit) (ps : List Policy)
      → (apply_edit d rows edit).0 ≡ none
      → d.list rows ≡ ok ps
      → (ps' : List Policy) × (d.list (apply_edit d rows edit).1 ≡ ok ps')
        × ((api name : Str) → last_of ps' api name ≡ edited edit (last_of ps) api name)

-- A later policy of the key hides those before it.
pub last_of-append :
    (ps qs : List Policy) (api name : Str)
    → last_of (ps ++ qs) api name ≡ or_else (last_of qs api name) (last_of ps api name)
unfolding last_of
last_of-append [] qs api name = ground arith
last_of-append (p ∷ ps) qs api name = ground (arith, last_of-append ps qs api name)

pub last_of-none :
    (ps : List Policy) (api name : Str) → defines ps api name ≡ false → last_of ps api name ≡ none
unfolding last_of defines
last_of-none [] api name h = refl
last_of-none (p ∷ ps) api name h = ground (arith, last_of-none ps api name)
