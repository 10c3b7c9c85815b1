-- ===== src/Ingress/Http.antt =====
-- ha/hashburst_master_ingress.py: do_GET and do_POST of the handler, as the answer that they send.
use node_installer.Prelude.{
  ℕ, String, ◌≡◌, refl, ap, ◌∙◌, sym, Bool, true, false, List, [], ◌∷◌, ◌++◌, All, arith, eqb, ◌==◌,
  if◌then◌else◌,
}
use node_installer.Text.{codes}
use node_installer.Json.{Json, Fields}
use node_installer.Outcome.{Outcome, ok, error, exception}
use node_installer.Ingress.{Fetched, MasterRoute, MasterStatus, ha_status, resolve, master_status}
use node_installer.Ingress.Trust.{IsTrusted, IsServed}

-- The JSON bodies that the handler sends. `discovery` and `served` carry what their fields and
-- headers are taken from.
pub data Body : Type 0 where
  health : Body
  status : Fields → Body
  discovery : MasterRoute → Body
  served : MasterStatus → Body
  failed : String → Body

pub record Answer : Type 0 where
  pub code : ℕ
  pub body : Body

-- `path.split("?", 1)[0]`
unfoldable pub before_query : List ℕ → List ℕ
before_query [] = []
before_query (c ∷ cs) = if eqb c b'?' then [] else c ∷ before_query cs

abbrev drop_slash : ℕ → List ℕ → List ℕ
drop_slash c [] = if eqb c b'/' then [] else c ∷ []
drop_slash c (d ∷ cs) = c ∷ d ∷ cs

-- `.rstrip("/")`
unfoldable pub without_slashes : List ℕ → List ℕ
without_slashes [] = []
without_slashes (c ∷ cs) = drop_slash c (without_slashes cs)

unfoldable pub same_path : List ℕ → List ℕ → Bool
same_path [] [] = true
same_path (c ∷ cs) (d ∷ ds) = let rest = same_path cs ds in if eqb c d then rest else false
same_path _ _ = false

-- The status that goes with the code of an IngressError.
unfoldable pub status_of : String → ℕ
status_of code =
    if code == "response_too_large"
    then 502
    else if code == "invalid_upstream_response"
    then 502
    else if code == "invalid_master_response"
    then 502
    else if code == "invalid_transport_path"
    then 502
    else 503

-- The two `except` clauses around the dispatch.
unfoldable pub caught {ℓ} : {A : Type ℓ} → (A → Body) → Outcome A → Answer
unfolding status_of
caught f (ok a) = record { code = 200; body = f a }
caught f (error code) = record { code = status_of code; body = failed code }
caught f exception = record { code = 500; body = failed "internal_error" }

module _ (repr : Json → String) (ha tep : Fetched) (ask : String → String → Fetched) where
  unfoldable pub respond : List ℕ → Answer
  respond path =
      if same_path path (codes "/health")
      then record { code = 200; body = health }
      else if same_path path (codes "/api/hashburst/ha/status")
      then caught status (ha_status ha)
      else if same_path path (codes "/api/hashburst/master/discovery")
      then caught discovery (resolve repr ha tep)
      else if same_path path (codes "/api/hashburst/master/status")
      then caught served (master_status repr ha tep ask)
      else record { code = 404; body = failed "not_found" }

  unfoldable pub do_get : List ℕ → Answer
  do_get path = respond (without_slashes (before_query path))

abbrev pub do_post : Answer
do_post = record { code = 405; body = failed "method_not_allowed" }

before_query-append :
    (path query : List ℕ)
    → All (λ c. eqb c b'?' ≡ false) path
    → before_query (path ++ b'?' ∷ query) ≡ path
unfolding before_query
before_query-append [] query h = refl
before_query-append (c ∷ path) query h = ground (arith, before_query-append path query h.1)

before_query-plain : (path : List ℕ) → All (λ c. eqb c b'?' ≡ false) path → before_query path ≡ path
unfolding before_query
before_query-plain [] h = refl
before_query-plain (c ∷ path) h = ground (arith, before_query-plain path h.1)

module _ (repr : Json → String) (ha tep : Fetched) (ask : String → String → Fetched) where
  -- A query changes nothing of the answer to a path without a question mark.
  pub do_get-query :
      (path query : List ℕ)
      → All (λ c. eqb c b'?' ≡ false) path
      → do_get repr ha tep ask (path ++ b'?' ∷ query) ≡ do_get repr ha tep ask path
  do_get-query path query h =
      unfold do_get in
      ap (λ (p : List ℕ). respond repr ha tep ask (without_slashes p))
        (before_query-append path query h ∙ sym (before_query-plain path h))

  -- What the body of an answer with its code rests on.
  abbrev pub Safe : ℕ → Body → Type 0
  Safe code health = code ≡ 200
  Safe code (status d) = (code ≡ 200) × (ha_status ha ≡ ok d)
  Safe code (discovery r) = (code ≡ 200) × IsTrusted repr ha tep r
  Safe code (served s) = (code ≡ 200) × IsServed repr ha tep s
  Safe code (failed c) = (code ≡ 200) → ⊥

  pub record IsSafe (a : Answer) : Type 0 where
    pub safe : Safe a.code a.body
