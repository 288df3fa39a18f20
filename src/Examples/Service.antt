-- ===== src/Examples/Service.antt =====
-- An example of the policy service (internal/control/policies/policies.go) on a durable store that is
-- a list.
use bouncer.Base.{◌⊎◌, refl, false, none, List, [], ◌∷◌, Str, bytes, Outcome, ok}
use bouncer.Models.{Policy, permit, deny}
use bouncer.PolicyStore.{CompiledPolicy}
use bouncer.PolicyRuntime.{CelSite}
use bouncer.PolicyRuntime.Homes.{HasHomes}
use bouncer.PolicyService.{Durable, Service, create, replace}
use bouncer.PolicyService.Writes.{IsWritten, IsRefused, create-ends, replace-ends}
use bouncer.Base.{All, str_eq, ◌≡◌, ◌⊎◌}
use bouncer.Base.Dict.{lookup, insert}
use bouncer.PolicyService.Import.{
  dedupe, last_index, keep_last, import_policies, IsValid, import_policies-validated,
}
use bouncer.PolicyService.Homes.{create_op, delete_op, apply_ops, apply_ops-HasHomes}

-- A source is its own program.
abbrev pub keep_source : CelSite → Str → Str → Outcome Str Str
keep_source site api source = ok source

abbrev list_store : Durable
list_store = record {
  Rows = List Policy;
  Error = Str;
  list = λ rows. ok rows;
  put = λ rows p. (none, p ∷ rows);
  delete = λ rows api name. (none, []);
}

abbrev pub drive_policy : Policy
drive_policy = record {
  api = bytes "drive";
  name = bytes "read";
  description = [];
  principal = [];
  action = [];
  condition = bytes "true";
  result = permit;
}

abbrev compiled_policy : CompiledPolicy Str
compiled_policy = record {
  api = bytes "drive";
  name = bytes "read";
  result = permit;
  principal_pred = bytes "true";
  predicate = bytes "true";
  condition = bytes "true";
  source = drive_policy;
}

abbrev live : Service keep_source list_store
live = record {
  readonly = false;
  rows = drive_policy ∷ [];
  apis =
      record { name = bytes "drive"; store = record { deny = []; permit = compiled_policy ∷ [] } }
      ∷ [];
}

create-ends_example :
    IsWritten keep_source list_store live drive_policy
      (create keep_source list_store live drive_policy)
    ⊎ IsRefused keep_source list_store live drive_policy
        (create keep_source list_store live drive_policy)
create-ends_example = create-ends keep_source list_store live drive_policy

replace-ends_example :
    IsWritten keep_source list_store live drive_policy
      (replace keep_source list_store live (bytes "drive") (bytes "read") drive_policy)
    ⊎ IsRefused keep_source list_store live drive_policy
        (replace keep_source list_store live (bytes "drive") (bytes "read") drive_policy)
replace-ends_example =
    replace-ends keep_source list_store live (bytes "drive") (bytes "read") drive_policy

live-HasHomes : HasHomes live.apis
live-HasHomes = ((tt, (refl, tt)), tt)

apply_ops-HasHomes_example :
    HasHomes
      (apply_ops keep_source list_store live
        (delete_op (bytes "drive") (bytes "read") ∷ create_op drive_policy ∷ [])).apis
apply_ops-HasHomes_example =
    apply_ops-HasHomes keep_source list_store live
      (delete_op (bytes "drive") (bytes "read") ∷ create_op drive_policy ∷ []) live-HasHomes

-- The second of two policies of one name is the one that is imported.
two_versions :
    dedupe (drive_policy ∷ record drive_policy { result = deny } ∷ [])
    ≡ record drive_policy { result = deny } ∷ []
unfolding dedupe last_index keep_last insert lookup str_eq
two_versions = refl

import_policies-validated_example :
    ((import_policies keep_source list_store live (drive_policy ∷ drive_policy ∷ []) false).1
      ≡ live)
    ⊎ ((live.readonly ≡ false)
        × (false ≡ false)
        × All (IsValid keep_source list_store live) (dedupe (drive_policy ∷ drive_policy ∷ [])))
import_policies-validated_example =
    import_policies-validated keep_source list_store live (drive_policy ∷ drive_policy ∷ []) false
