-- ===== src/Client/Pending.antt =====
-- tep/hb_tep_client.py: which requests are pending.
use node_installer.Prelude.{
  ℕ, suc, ◌≤◌, String, ◌≡◌, refl, false, ◌||◌, Option, none, some, List, [], ◌∷◌, eqb, leb, ltb,
  ◌==◌, length, arith, Bool-cases, inl, inr,
}
use node_installer.Json.{Loaded, Json, Fields}
use node_installer.Outcome.{Outcome, ok, error, exception}
use node_installer.App.Envelope.{Identity, Envelope}
use node_installer.Client.{
  PendingRequest, Table, find_item, remove_item, unexpired, expire_locked, Step, is_some,
  add_locked, add, is_service, matched, correlate, discard, Reply, Request, exchange, settle,
  after_correlate, finally_discard, after_add, after_new, request,
}

find_item-remove_item :
    (id : String) (ps : List PendingRequest) → find_item id (remove_item id ps) ≡ none
unfolding find_item remove_item
find_item-remove_item id [] = refl
find_item-remove_item id (p ∷ ps) = ground (arith, find_item-remove_item id ps)

remove_item-absent :
    (id other : String) (ps : List PendingRequest)
    → find_item id ps ≡ none
    → find_item id (remove_item other ps) ≡ none
unfolding find_item remove_item
remove_item-absent id other [] h = refl
remove_item-absent id other (p ∷ ps) h = ground (arith, remove_item-absent id other ps)

unexpired-absent :
    (id : String) (now : ℕ) (ps : List PendingRequest)
    → find_item id ps ≡ none
    → find_item id (unexpired now ps) ≡ none
unfolding find_item unexpired
unexpired-absent id now [] h = refl
unexpired-absent id now (p ∷ ps) h = ground (arith, unexpired-absent id now ps)

-- No id is pending twice.
unfoldable pub IsDistinct : List PendingRequest → Type 0
IsDistinct [] = Unit
IsDistinct (p ∷ ps) = (find_item p.request_id ps ≡ none) × IsDistinct ps

length-remove_item :
    (id : String) (ps : List PendingRequest) → length (remove_item id ps) ≤ length ps
unfolding remove_item
length-remove_item id [] = ground arith
length-remove_item id (p ∷ ps) = ground (arith, length-remove_item id ps)

length-unexpired : (now : ℕ) (ps : List PendingRequest) → length (unexpired now ps) ≤ length ps
unfolding unexpired
length-unexpired now [] = ground arith
length-unexpired now (p ∷ ps) = ground (arith, length-unexpired now ps)

remove_item-IsDistinct :
    (id : String) (ps : List PendingRequest) → IsDistinct ps → IsDistinct (remove_item id ps)
unfolding remove_item IsDistinct
remove_item-IsDistinct id [] d = tt
remove_item-IsDistinct id (p ∷ ps) d =
    let rest = remove_item-IsDistinct id ps d.1 in
    elim (Bool-cases (p.request_id == id)) [
      | inl e ↦ rw e rest
      | inr e ↦ rw e (remove_item-absent p.request_id id ps d.0, rest)
    ]

unexpired-IsDistinct :
    (now : ℕ) (ps : List PendingRequest) → IsDistinct ps → IsDistinct (unexpired now ps)
unfolding unexpired IsDistinct
unexpired-IsDistinct now [] d = tt
unexpired-IsDistinct now (p ∷ ps) d =
    let rest = unexpired-IsDistinct now ps d.1 in
    elim (Bool-cases (ltb p.deadline now)) [
      | inl e ↦ rw e rest
      | inr e ↦ rw e (unexpired-absent p.request_id now ps d.0, rest)
    ]

-- At most `max_pending` requests, with different ids.
pub record IsBounded (t : Table) : Type 0 where
  pub fits : length t.items ≤ t.max_pending
  pub distinct : IsDistinct t.items

expire-IsBounded : (now : ℕ) (t : Table) → IsBounded t → IsBounded (expire_locked now t)
expire-IsBounded now t b = record {
  fits = omega (arith, length-unexpired now t.items, b.fits);
  distinct = unexpired-IsDistinct now t.items b.distinct;
}

removed-IsBounded :
    (id : String) (t : Table)
    → IsBounded t
    → IsBounded (record t { items = remove_item id t.items })
removed-IsBounded id t b = record {
  fits = omega (arith, length-remove_item id t.items, b.fits);
  distinct = remove_item-IsDistinct id t.items b.distinct;
}

absent-some : (o : Option PendingRequest) → is_some o ≡ false → o ≡ none
absent-some none h = refl
absent-some (some p) h = cc

not_full : (n m : ℕ) → leb m n ≡ false → suc n ≤ m
not_full n m h = ground arith

add_locked-IsBounded :
    (now : ℕ) (id peer service : String) (timeout : ℕ) (t : Table)
    → IsBounded t
    → IsBounded (add_locked now id peer service timeout t).1
unfolding IsDistinct
add_locked-IsBounded now id peer service timeout t b =
    elim (Bool-cases (leb t.max_pending (length t.items))) [
      | inl full ↦ rw full b
      | inr room ↦ elim (Bool-cases (is_some (find_item id t.items))) [
        | inl known ↦ rw (room, known) b
        | inr new ↦
            rw (room, new)
              (record {
                fits = not_full (length t.items) t.max_pending room;
                distinct = (absent-some _ new, b.distinct);
              })
      ]
    ]

pub add-IsBounded :
    (now : ℕ) (id peer service : String) (timeout : ℕ) (t : Table)
    → IsBounded t
    → IsBounded (add now id peer service timeout t).1
unfolding add
add-IsBounded now id peer service timeout t b =
    elim (Bool-cases (eqb timeout 0 || ltb 30000 timeout)) [
      | inl bad ↦ rw bad b
      | inr good ↦
          rw good (add_locked-IsBounded now id peer service timeout _ (expire-IsBounded now t b))
    ]

matched-IsBounded :
    (now : ℕ) (e : Envelope) (t : Table) (o : Option PendingRequest)
    → IsBounded t
    → IsBounded (matched now e t o).1
matched-IsBounded now e t none b = b
matched-IsBounded now e t (some item) b =
    let popped = removed-IsBounded e.request_id t b in
    elim (Bool-cases (e.source.peer_id == item.expected_peer_id)) [
      | inr other ↦ rw other b
      | inl peer ↦ elim (Bool-cases (is_service item.expected_service e.service)) [
        | inr wrong ↦ rw (peer, wrong) b
        | inl same ↦ elim (Bool-cases (ltb item.deadline now)) [
          | inl late ↦ rw (peer, same, late) popped
          | inr timely ↦ rw (peer, same, timely) popped
        ]
      ]
    ]

correlate-IsBounded :
    (now : ℕ) (e : Envelope) (t : Table) → IsBounded t → IsBounded (correlate now e t).1
unfolding correlate
correlate-IsBounded now e t b = matched-IsBounded now e _ _ (expire-IsBounded now t b)

-- A failed call of `add` leaves no request that was not there.
abbrev Refused : String → Step PendingRequest → Type 0
Refused id (ok item, t) = Unit
Refused id (error code, t) = find_item id t.items ≡ none
Refused id (exception, t) = find_item id t.items ≡ none

add-Refused :
    (now : ℕ) (id peer service : String) (timeout : ℕ) (t : Table)
    → find_item id t.items ≡ none
    → Refused id (add now id peer service timeout t)
unfolding add
add-Refused now id peer service timeout t h =
    let gone = unexpired-absent id now t.items h in
    elim (Bool-cases (eqb timeout 0 || ltb 30000 timeout)) [
      | inl bad ↦ rw bad h
      | inr good ↦ elim (Bool-cases (leb t.max_pending (length (unexpired now t.items)))) [
        | inl full ↦ rw (good, full) gone
        | inr room ↦ rw (good, room, gone) tt
      ]
    ]

module _ (parse : List ℕ → Loaded) (dump : Fields → Option (List ℕ)) (services : List String)
    (repr : Json → String) (local_identity : Identity) (transport : String → List ℕ → ℕ → Reply)
    (meanwhile : Table → Table) (r : Request) where
  settle-IsBounded :
      (now : ℕ) (t : Table) (m : Outcome Envelope)
      → IsBounded t
      → IsBounded (settle parse dump services repr local_identity now t m).1
  settle-IsBounded now t (ok e) b = after (correlate now e t) (correlate-IsBounded now e t b)
    where
      after :
          (s : Step PendingRequest)
          → IsBounded s.1
          → IsBounded (after_correlate parse dump services repr local_identity e s).1
      after (ok item, t) b = b
      after (error code, t) b = b
      after (exception, t) b = b
  settle-IsBounded now t (error code) b = b
  settle-IsBounded now t exception b = b

  -- The table after a call.
  pub record IsFree (t : Table) : Type 0 where
    pub bounded : IsBounded t
    pub free : find_item r.request_id t.items ≡ none

  discard-IsFree :
      (s : Step Fields)
      → IsBounded s.1
      → IsFree (finally_discard parse dump services repr local_identity transport meanwhile r s).1
  unfolding discard
  discard-IsFree (result, t) b = record {
    bounded = removed-IsBounded r.request_id t b;
    free = find_item-remove_item r.request_id t.items;
  }

  after_add-IsFree :
      (req : Fields) (s : Step PendingRequest)
      → ((t : Table) → IsBounded t → IsBounded (meanwhile t))
      → IsBounded s.1
      → Refused r.request_id s
      → IsFree (after_add parse dump services repr local_identity transport meanwhile r req s).1
  after_add-IsFree req (ok item, t) others b h =
      discard-IsFree
        (settle parse dump services repr local_identity r.answered_at (meanwhile t)
          (exchange parse dump services repr local_identity transport meanwhile r req))
        (settle-IsBounded r.answered_at (meanwhile t)
          (exchange parse dump services repr local_identity transport meanwhile r req) (others t b))
  after_add-IsFree req (error code, t) others b h = record { bounded = b; free = h }
  after_add-IsFree req (exception, t) others b h = record { bounded = b; free = h }

  after_new-IsFree :
      (t : Table) (m : Outcome Fields)
      → ((t : Table) → IsBounded t → IsBounded (meanwhile t))
      → IsBounded t
      → find_item r.request_id t.items ≡ none
      → IsFree (after_new parse dump services repr local_identity transport meanwhile r t m).1
  after_new-IsFree t (ok req) others b h =
      after_add-IsFree req _ others
        (add-IsBounded r.sent_at r.request_id r.destination.peer_id r.service r.timeout_ms t b)
        (add-Refused r.sent_at r.request_id r.destination.peer_id r.service r.timeout_ms t h)
  after_new-IsFree t (error code) others b h = record { bounded = b; free = h }
  after_new-IsFree t exception others b h = record { bounded = b; free = h }

  -- For a request whose id is not pending, whatever it returns or raises, whatever the transport does and
  -- whatever other threads do meanwhile to the table within its bound: afterwards the id is not pending, at
  -- most `max_pending` requests are, and no two of them have the same id.
  pub request-IsFree :
      (t : Table)
      → ((s : Table) → IsBounded s → IsBounded (meanwhile s))
      → IsBounded t
      → find_item r.request_id t.items ≡ none
      → IsFree (request parse dump services repr local_identity transport meanwhile r t).1
  unfolding request
  request-IsFree t others b h = after_new-IsFree t _ others b h
