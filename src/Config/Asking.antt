-- ===== src/Config/Asking.antt =====
-- Requests whose failure is skipped
-- (custom_components/amaran_ble/amaranble/config_client.py, `bind_all_models`).
use ha_amaran_ble.Base.{
  ℕ, ◌≡◌, refl, ap, ◌∙◌, Bool-cases, inl, inr, List, [], ◌∷◌, ◌++◌, Result, ok, err, proxy_error,
  ◌==◌, All,
}
use ha_amaran_ble.Base.Exec.{Exec, then_do, lift}
use ha_amaran_ble.Proxy.{AccessMessage}
use ha_amaran_ble.Proxy.Requests.{Request, Mesh, matches, first_match, request_with, request}
use ha_amaran_ble.Config.{check_status}
use ha_amaran_ble.Config.Client.{status_of, skip_rejected}

-- The mesh answers, or does not; sending raises no other exception than the proxy's own.
abbrev pub IsTame : Result (List AccessMessage) → Type 0
IsTame (ok messages) = Unit {0}
IsTame (err e) = e ≡ proxy_error

-- The action returns, after exactly these requests.
abbrev pub Returns : List Request → Mesh → Result (Unit {0}) × Mesh → Type 0
Returns rs mesh (r, mesh') =
    (r ≡ ok tt) × (mesh'.requests ≡ mesh.requests ++ rs) × All IsTame mesh'.outcomes

append_assoc : (xs ys zs : List Request) → (xs ++ ys) ++ zs ≡ xs ++ (ys ++ zs)
append_assoc [] ys zs = refl
append_assoc (x ∷ xs) ys zs = ap (λ t. x ∷ t) (append_assoc xs ys zs)

pub append_nil : (xs : List Request) → xs ++ [] ≡ xs
append_nil [] = refl
append_nil (x ∷ xs) = ap (λ t. x ∷ t) (append_nil xs)

pub Returns-then_do :
    (rs rs' : List Request) (mesh : Mesh) (out : Result (Unit {0}) × Mesh)
    (rest : Exec Mesh (Unit {0}))
    → Returns rs mesh out
    → ((mesh' : Mesh) → All IsTame mesh'.outcomes → Returns rs' mesh' (rest mesh'))
    → Returns (rs ++ rs') mesh (then_do out (λ done. rest))
Returns-then_do rs rs' mesh (ok done, mesh') rest (_, e, t) k =
    let (returned, e', t') = k mesh' t in
    (returned, e' ∙ (rw e (append_assoc mesh.requests rs rs')), t')
Returns-then_do rs rs' mesh (err e, mesh') rest (h, _, _) k = cc

-- The tail of `bind_model`, under the handler of `bind_all_models`.
abbrev pub answer : Exec Mesh AccessMessage → Exec Mesh (Unit {0})
answer asked mesh =
    skip_rejected (then_do (asked mesh) (λ reply. lift (check_status (status_of reply.parameters))))

check_status_lem :
    (status : ℕ) (mesh : Mesh) → skip_rejected (lift (check_status status) mesh) ≡ (ok tt, mesh)
unfolding check_status
check_status_lem status mesh = elim (Bool-cases (status == 0)) [
  | inl h ↦ rw h refl
  | inr h ↦ rw h refl
]

first_match-Returns :
    (r : Request) (messages : List AccessMessage) (mesh : Mesh)
    → skip_rejected (
        then_do
          (first_match r messages, mesh)
          (λ reply. lift (check_status (status_of reply.parameters))))
      ≡ (ok tt, mesh)
first_match-Returns r [] mesh = refl
first_match-Returns r (m ∷ rest) mesh = elim (Bool-cases (matches r m)) [
  | inl h ↦ rw h (check_status_lem (status_of m.parameters) mesh)
  | inr h ↦ rw h (first_match-Returns r rest mesh)
]

pub answer_lem :
    (r : Request) (mesh : Mesh)
    → All IsTame mesh.outcomes
    → Returns (r ∷ []) mesh (answer (request r) mesh)
unfolding request
answer_lem r mesh tame = go mesh.outcomes tame
  where
    go :
        (outcomes : List (Result (List AccessMessage)))
        → All IsTame outcomes
        → Returns (r ∷ []) mesh (answer (request_with r outcomes) mesh)
    go [] t = (refl, refl, tame)
    go (ok messages ∷ rest) t = rw (first_match-Returns r messages) (refl, refl, t.1)
    go (err e ∷ rest) t = rw (t.0) (refl, refl, t.1)
