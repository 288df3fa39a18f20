-- ===== src/PolicyService/Homes.antt =====
-- The policy service (internal/control/policies/policies.go) keeps each policy of the runtime with
-- the API that it was written for.
use bouncer.Base.{◌⊎◌, inl, inr, sym, subst, List, [], ◌∷◌, Str, Outcome}
use bouncer.Models.{Policy}
use bouncer.PolicyRuntime.{CelSite}
use bouncer.PolicyRuntime.Homes.{HasHomes, remove_policy-HasHomes, replace_policy-HasHomes}
use bouncer.PolicyService.{Durable, Service, create, replace, delete_policy}
use bouncer.PolicyService.Writes.{Answer, IsWritten, IsRefused, create-ends, replace-ends}
use bouncer.PolicyService.Removal.{IsDeleted, IsKept, delete_policy-ends}

-- The calls that change the policies.
pub data ServiceOp : Type 0 where
  create_op : Policy → ServiceOp
  replace_op : Str → Str → Policy → ServiceOp
  delete_op : Str → Str → ServiceOp

module _ {P : Type 0} (compile_cel : CelSite → Str → Str → Outcome Str P) (d : Durable) where
  abbrev pub apply_op : Service compile_cel d → ServiceOp → Service compile_cel d
  apply_op s (create_op p) = (create compile_cel d s p).1
  apply_op s (replace_op api name p) = (replace compile_cel d s api name p).1
  apply_op s (delete_op api name) = (delete_policy compile_cel d s api name).1

  abbrev pub apply_ops : Service compile_cel d → List ServiceOp → Service compile_cel d
  apply_ops s [] = s
  apply_ops s (op ∷ ops) = apply_ops (apply_op s op) ops

  write-HasHomes :
      (s : Service compile_cel d) (p : Policy) (x : Answer compile_cel d)
      → HasHomes s.apis
      → IsWritten compile_cel d s p x ⊎ IsRefused compile_cel d s p x
      → HasHomes x.1.apis
  write-HasHomes s p x h (inl (r, v, e, rows, applied, apis)) =
      subst HasHomes (sym apis) (replace_policy-HasHomes compile_cel s.apis p h)
  write-HasHomes s p x h (inr (e, r, apis, rows)) = subst HasHomes (sym apis) h

  delete-HasHomes :
      (s : Service compile_cel d) (api name : Str) (x : Answer compile_cel d)
      → HasHomes s.apis
      → IsDeleted compile_cel d s api name x ⊎ IsKept compile_cel d s api name x
      → HasHomes x.1.apis
  delete-HasHomes s api name x h (inl (r, found, e, rows, removed, apis)) =
      subst HasHomes (sym apis) (remove_policy-HasHomes s.apis api name h)
  delete-HasHomes s api name x h (inr (e, r, apis, rows)) = subst HasHomes (sym apis) h

  apply_op-HasHomes :
      (s : Service compile_cel d) (op : ServiceOp) → HasHomes s.apis → HasHomes (apply_op s op).apis
  apply_op-HasHomes s (create_op p) h =
      write-HasHomes s p (create compile_cel d s p) h (create-ends compile_cel d s p)
  apply_op-HasHomes s (replace_op api name p) h =
      write-HasHomes s p (replace compile_cel d s api name p) h
        (replace-ends compile_cel d s api name p)
  apply_op-HasHomes s (delete_op api name) h =
      delete-HasHomes s api name (delete_policy compile_cel d s api name) h
        (delete_policy-ends compile_cel d s api name h)

  -- Whatever is created, replaced and deleted, each policy of the runtime stands with the API that it
  -- was written for, if it was so at the start.
  pub apply_ops-HasHomes :
      (s : Service compile_cel d) (ops : List ServiceOp)
      → HasHomes s.apis
      → HasHomes (apply_ops s ops).apis
  apply_ops-HasHomes s [] h = h
  apply_ops-HasHomes s (op ∷ ops) h =
      apply_ops-HasHomes (apply_op s op) ops (apply_op-HasHomes s op h)
