-- ===== src/Proxy/Requests.antt =====
-- `ProxyClient.request` (custom_components/amaran_ble/amaranble/proxy.py): a message out, and the
-- first message in that answers it. What the mesh does about each request is the environment's:
-- either the sending raises, or some messages are dispatched before the timeout.
use mathlib.Core.List.{Memᴰ}
use mathlib.Core.List.Memᴰ.{head, tail}
use ha_amaran_ble.Base.{
  Bool-cases, inl, inr, ℕ, ◌≡◌, refl, arith, Bool, true, ◌&&◌, ◌==◌, List, [], ◌∷◌, ◌++◌, Result,
  ok, err, proxy_error, if◌then◌else◌,
}
use ha_amaran_ble.Base.Bytes.{Bytes}
use ha_amaran_ble.Base.Exec.{Exec, Ensures}
use ha_amaran_ble.Proxy.{AccessMessage}

-- The arguments; the response matcher is a test of the parameters.
pub record Request : Type 0 where
  pub dst : ℕ
  pub opcode : ℕ
  pub parameters : Bytes
  pub expect_opcode : ℕ
  pub device_key_for : ℕ
  pub response_matcher : Bytes → Bool

-- What comes of the next requests, in order, and the requests that were made.
pub record Mesh : Type 0 where
  pub outcomes : List (Result (List AccessMessage))
  pub requests : List Request

unfoldable pub matches : Request → AccessMessage → Bool
matches r m = (m.src == r.dst) && (m.opcode == r.expect_opcode) && r.response_matcher m.parameters

-- `_dispatch` completes the future with the first match; with none of them the wait times out.
abbrev pub first_match : Request → List AccessMessage → Result AccessMessage
first_match r [] = err proxy_error
first_match r (m ∷ rest) = if matches r m then ok m else first_match r rest

abbrev pub wait_for : Request → Result (List AccessMessage) → Result AccessMessage
wait_for r (err e) = err e
wait_for r (ok messages) = first_match r messages

abbrev pub request_with : Request → List (Result (List AccessMessage)) → Exec Mesh AccessMessage
request_with r [] mesh = (err proxy_error, record mesh { requests = mesh.requests ++ (r ∷ []) })
request_with r (outcome ∷ rest) mesh =
    (wait_for r outcome, record { outcomes = rest; requests = mesh.requests ++ (r ∷ []) })

unfoldable pub request : Request → Exec Mesh AccessMessage
request r mesh = request_with r mesh.outcomes mesh

first_match_lem :
    (r : Request) (messages : List AccessMessage) (reply : AccessMessage)
    → first_match r messages ≡ ok reply
    → matches r reply ≡ true
first_match_lem r [] reply h = ground arith
first_match_lem r (m ∷ rest) reply h = ground (arith, first_match_lem r rest reply)

wait_for_lem :
    (r : Request) (outcome : Result (List AccessMessage)) (reply : AccessMessage)
    → wait_for r outcome ≡ ok reply
    → matches r reply ≡ true
wait_for_lem r (err e) reply h = ground arith
wait_for_lem r (ok messages) reply h = first_match_lem r messages reply h

-- A reply matches, and each request is made once, whatever comes of it.
pub request_lem :
    (r : Request) (mesh : Mesh)
    → Ensures
        (λ m mesh'. (matches r m ≡ true) × (mesh'.requests ≡ mesh.requests ++ (r ∷ [])))
        (λ mesh'. mesh'.requests ≡ mesh.requests ++ (r ∷ []))
        (request r mesh)
unfolding request
request_lem r mesh = go mesh.outcomes
  where
    settled :
        (result : Result AccessMessage) (mesh' : Mesh)
        → ((m : AccessMessage) → result ≡ ok m → matches r m ≡ true)
        → mesh'.requests ≡ mesh.requests ++ (r ∷ [])
        → Ensures
            (λ m mesh'. (matches r m ≡ true) × (mesh'.requests ≡ mesh.requests ++ (r ∷ [])))
            (λ mesh'. mesh'.requests ≡ mesh.requests ++ (r ∷ []))
            (result, mesh')
    settled (ok m) mesh' h e = (h m refl, e)
    settled (err x) mesh' h e = e

    go :
        (outcomes : List (Result (List AccessMessage)))
        → Ensures
            (λ m mesh'. (matches r m ≡ true) × (mesh'.requests ≡ mesh.requests ++ (r ∷ [])))
            (λ mesh'. mesh'.requests ≡ mesh.requests ++ (r ∷ []))
            (request_with r outcomes mesh)
    go [] = refl
    go (outcome ∷ rest) = settled (wait_for r outcome) _ (λ m e. wait_for_lem r outcome m e) refl

-- The reply is among the messages that were dispatched to this request.
pub record Answers (r : Request) (mesh : Mesh) (m : AccessMessage) (mesh' : Mesh) : Type 0 where
  pub messages : List AccessMessage
  pub dispatched : mesh.outcomes ≡ ok messages ∷ mesh'.outcomes
  pub among : Memᴰ m messages
  pub matching : matches r m ≡ true
  pub asked : mesh'.requests ≡ mesh.requests ++ (r ∷ [])

first_match-Mem :
    (r : Request) (messages : List AccessMessage) (reply : AccessMessage)
    → first_match r messages ≡ ok reply
    → Memᴰ reply messages
first_match-Mem r [] reply h = absurd (ground arith)
first_match-Mem r (m ∷ rest) reply h = elim (Bool-cases (matches r m)) [
  | inl here ↦ let same : ok m ≡ ok reply = rw here at h in head (ground (arith, same))
  | inr later ↦ tail (first_match-Mem r rest reply (rw later at h))
]

pub request-Answers :
    (r : Request) (mesh : Mesh)
    → Ensures
        (Answers r mesh)
        (λ mesh'. mesh'.requests ≡ mesh.requests ++ (r ∷ []))
        (request r mesh)
unfolding request
request-Answers r mesh = go mesh.outcomes refl
  where
    settled_by :
        (result : Result AccessMessage) (messages : List AccessMessage) (mesh' : Mesh)
        → mesh.outcomes ≡ ok messages ∷ mesh'.outcomes
        → first_match r messages ≡ result
        → mesh'.requests ≡ mesh.requests ++ (r ∷ [])
        → Ensures
            (Answers r mesh)
            (λ mesh'. mesh'.requests ≡ mesh.requests ++ (r ∷ []))
            (result, mesh')
    settled_by (err x) messages mesh' d f e = e
    settled_by (ok m) messages mesh' d f e = record {
      messages = messages;
      dispatched = d;
      among = first_match-Mem r messages m f;
      matching = first_match_lem r messages m f;
      asked = e;
    }

    go :
        (outcomes : List (Result (List AccessMessage)))
        → mesh.outcomes ≡ outcomes
        → Ensures
            (Answers r mesh)
            (λ mesh'. mesh'.requests ≡ mesh.requests ++ (r ∷ []))
            (request_with r outcomes mesh)
    go [] o = refl
    go (err e ∷ rest) o = refl
    go (ok messages ∷ rest) o = settled_by (first_match r messages) messages _ o refl refl
