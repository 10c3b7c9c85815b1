-- ===== src/App/Replay.antt =====
-- tep/hb_tep_app.py: ReplayCache, over an ordered dictionary with the oldest entry first. Times are
-- whole seconds of a monotonic clock; each call reads it once. The lock makes a call one step.
pub mod Bounds
pub mod Detection
use node_installer.Prelude.{
  ℕ, zero, suc, ◌+◌, String, Bool, true, false, not, ◌&&◌, ◌||◌, List, [], ◌∷◌, ◌++◌, length, leb,
  ltb, ◌==◌, if◌then◌else◌,
}
use node_installer.Text.{is_empty, strip}
use node_installer.Outcome.{Outcome, ok, error, exception}
use node_installer.App.Hex.{is_hex}

-- A key, (source_peer_id, request_id), with the time at which it was seen.
pub record Entry : Type 0 where
  pub peer : String
  pub request : String
  pub seen : ℕ

pub record Cache : Type 0 where
  pub window_sec : ℕ
  pub max_entries : ℕ
  pub entries : List Entry

-- The constructor raises ValueError for a limit of 0.
unfoldable pub new_cache : ℕ → ℕ → Outcome Cache
new_cache window limit =
    if leb window 0
    then exception
    else if leb limit 0
    then exception
    else ok (record { window_sec = window; max_entries = limit; entries = [] })

-- `_evict_expired_locked`: from the front, while `seen <= now - window_sec`.
unfoldable pub evict : ℕ → ℕ → List Entry → List Entry
evict window now [] = []
evict window now (e ∷ es) = if leb (e.seen + window) now then evict window now es else e ∷ es

abbrev pub has_key : String → String → Entry → Bool
has_key peer request e = e.peer == peer && e.request == request

unfoldable pub member : String → String → List Entry → Bool
member peer request [] = false
member peer request (e ∷ es) = has_key peer request e || member peer request es

-- `while len(entries) > max_entries: popitem(last=False)`
unfoldable pub trim : ℕ → List Entry → List Entry
trim limit [] = []
trim limit (e ∷ es) = if ltb limit (length (e ∷ es)) then trim limit es else e ∷ es

-- The locked part of `check_and_add`: the answer, and the cache after it.
unfoldable pub admit : String → String → ℕ → Cache → Outcome (Unit {0}) × Cache
admit peer request now c =
    let left = evict c.window_sec now c.entries in
    if member peer request left then (error "replay_detected", record c { entries = left }) else (
      ok tt,
      record c {
        entries =
            trim c.max_entries
              (left ++ (record { peer = peer; request = request; seen = now }) ∷ []);
      },
    )

-- ReplayCache.check_and_add; a bad argument raises ValueError.
unfoldable pub check_and_add : String → String → ℕ → Cache → Outcome (Unit {0}) × Cache
check_and_add peer request now c =
    if is_empty (strip peer) || not (is_hex request 32)
    then (exception, c)
    else admit peer request now c

-- `len(cache)` evicts first.
unfoldable pub size : ℕ → Cache → ℕ × Cache
unfolding evict
size now c =
    let left = evict c.window_sec now c.entries in (length left, record c { entries = left })

unfoldable pub clear : Cache → Cache
clear c = record c { entries = [] }
