-- ===== src/Tls.antt =====
-- The TLS session cache of src/tls/session.rs. A session is taken for its id, by which the source
-- compares sessions.
pub mod Lru
pub mod Queues
pub mod Distinct
pub mod Linked
pub mod SingleUse
pub mod Serving
mod Tests
use wreq.Base.{
  ℕ, leb, Bool, true, false, ◌&&◌, Option, none, some, List, [], ◌∷◌, is_empty, length,
  if◌then◌else◌,
}
use wreq.Base.Eq.{Eq, ◌==◌, nat_eq}
use wreq.Base.Map
use Lru.{LruCache}

-- `Inner`, and the capacity beside it.
pub record Inner (K : Type 0) {S : Type 0} ⦃es : Eq S⦄ (L : LruCache S) : Type 0 where
  pub reverse : List (S × K)
  pub per_host_sessions : List (K × L.Cache)
  pub per_host_session_capacity : ℕ

module _ {K S : Type 0} ⦃ek : Eq K⦄ ⦃es : Eq S⦄ (L : LruCache S) where
  unfoldable pub new : ℕ → Inner K L
  new capacity = record {
    reverse = [];
    per_host_sessions = [];
    per_host_session_capacity = capacity;
  }

  -- The cache of a key, made where there is none.
  unfoldable pub sessions_or_new : Inner K L → K → L.Cache
  sessions_or_new i key = elim (Map.get key i.per_host_sessions) [
    | some c ↦ c
    | none ↦
        if i.per_host_session_capacity == 0 then L.unbounded else L.new i.per_host_session_capacity
  ]

  -- The session that a full cache gives up, and the cache without it.
  unfoldable pub evict : Inner K L → L.Cache → Option S × L.Cache
  evict i c =
      if leb i.per_host_session_capacity (length (L.items c)) then L.pop_lru c else (none, c)

  unfoldable pub put : Inner K L → K → S → Inner K L
  unfolding sessions_or_new evict
  put i key session =
      let (evicted, c) = evict i (sessions_or_new i key) in
      let reverse : List (S × K) = elim evicted [
        | some s ↦ Map.remove s i.reverse
        | none ↦ i.reverse
      ] in
      record i {
        per_host_sessions = Map.insert key (L.put session c) i.per_host_sessions;
        reverse = Map.insert session key reverse;
      }

  -- The session taken out of the cache of the key that the reverse map names.
  unfoldable pub forget : Inner K L → S → Inner K L
  forget i session = elim (Map.get session i.reverse) [
    | none ↦ i
    | some key ↦
        let i' = record i { reverse = Map.remove session i.reverse } in
        elim (Map.get key i.per_host_sessions) [
          | none ↦ i'
          | some c ↦
              let c' = L.pop session c in
              record i' {
                per_host_sessions =
                    if is_empty (L.items c')
                    then Map.remove key i.per_host_sessions
                    else Map.insert key c' i.per_host_sessions;
              }
        ]
  ]

  -- `pop`; `is_tls13` says of a session whether its protocol version is TLS 1.3.
  unfoldable pub pop : (S → Bool) → Inner K L → K → Inner K L × Option S
  unfolding forget
  pop is_tls13 i key = elim (Map.get key i.per_host_sessions) [
    | none ↦ (i, none)
    | some c ↦ elim (L.peek_lru c) [
      | none ↦ (i, none)
      | some session ↦ (if is_tls13 session then forget i session else i, some session)
    ]
  ]
