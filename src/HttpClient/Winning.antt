-- ===== src/HttpClient/Winning.antt =====
-- Who wins the race of `one_connection_for` in src/client/layer/client.rs, and what becomes of the other.
use wreq.Base.{
  ℕ, zero, suc, ◌≡◌, refl, sym, ap, subst, ◌∙◌, Bool, true, false, not, Option, none, some,
  if◌then◌else◌, inl, inr, ◌⊎◌, Bool-cases,
}
use wreq.Base.Results.{Result, ok, err, Poll, waiting, ready}
use wreq.Pool.Handles
use wreq.Pool.Handles.{ver_is_http2}
use wreq.HttpClient.{Crates, Config, Error, is_canceled}
use wreq.HttpClient.Sending.{Pooled}
use wreq.HttpClient.Racing.{
  Lazy, init, fut, empty, started, poll_lazy, error_is_canceled, Races, ClientConnectError, normal,
  checkout_is_closed, Selected, left, right, select, settle, one_connection_for, from_connect,
  from_checkout, await_connect, await_checkout, connect_turn, checkout_turn, connection_for,
  on_found,
}

module _ (x : Crates) {D : Type 0} (c : Races x D) where
  -- Where the pool has a connection at once, that one is taken and none is started: nothing but the
  -- checkout and its first poll happens.
  idle_first :
      (n : ℕ) (config : Config) (descriptor : D) (w w1 w2 : c.World) (ck ck' : c.C) (p : Pooled x)
      → c.is_enabled ≡ true
      → c.checkout descriptor w ≡ (ck, w1)
      → c.poll_checkout ck w1 ≡ (ready (ok p), ck', w2)
      → one_connection_for x c (suc n) config descriptor w ≡ (some (ok p), w2)
  unfolding one_connection_for select settle started
  idle_first n config descriptor w w1 w2 ck ck' p on out polled = rw (on, out, polled) refl

  -- A connection that is started stays started.
  abbrev IsStarted : Option (Selected x c) × c.World → Type 0
  IsStarted (some (left a connecting), w) = started connecting ≡ true
  IsStarted _ = Unit {0}

  connect_turn-IsStarted :
      (again : c.C → Lazy D c.R → c.World → Option (Selected x c) × c.World)
      → ((ck : c.C) (l : Lazy D c.R) (w : c.World) → started l ≡ true → IsStarted (again ck l w))
      → (ck : c.C) (l : Lazy D c.R) (w : c.World)
      → IsStarted (connect_turn x c again ck (poll_lazy c.start c.poll_connect l w))
  unfolding poll_lazy started
  connect_turn-IsStarted again h ck (init d) w =
      let (r, w1) = c.start d w in go (c.poll_connect r w1)
    where
      go :
          (t : Poll (Result (Error x) (Pooled x)) × c.R × c.World)
          → IsStarted (connect_turn x c again ck (some t.0, fut t.1, t.2))
      go (ready a, r, w) = tt
      go (waiting, r, w) = h ck (fut r) w refl
  connect_turn-IsStarted again h ck (fut r) w = go (c.poll_connect r w)
    where
      go :
          (t : Poll (Result (Error x) (Pooled x)) × c.R × c.World)
          → IsStarted (connect_turn x c again ck (some t.0, fut t.1, t.2))
      go (ready a, r, w) = tt
      go (waiting, r, w) = h ck (fut r) w refl
  connect_turn-IsStarted again h ck empty w = tt

  checkout_turn-IsStarted :
      (again : c.C → Lazy D c.R → c.World → Option (Selected x c) × c.World)
      → ((ck : c.C) (l : Lazy D c.R) (w : c.World) → started l ≡ true → IsStarted (again ck l w))
      → (l : Lazy D c.R) (a : Poll (Result Handles.Error (Pooled x))) (ck : c.C) (w : c.World)
      → (started l ≡ true) ⊎ (a ≡ waiting)
      → IsStarted (checkout_turn x c again l (a, ck, w))
  checkout_turn-IsStarted again h l (ready a) ck w (inl s) = s
  checkout_turn-IsStarted again h l (ready a) ck w (inr s) = cc
  checkout_turn-IsStarted again h l waiting ck w s = connect_turn-IsStarted again h ck l w

  select-IsStarted :
      (n : ℕ) (ck : c.C) (l : Lazy D c.R) (w : c.World)
      → started l ≡ true
      → IsStarted (select x c n ck l w)
  unfolding select
  select-IsStarted zero ck l w s = tt
  select-IsStarted (suc n) ck l w s =
      let (a, ck', w') = c.poll_checkout ck w in
      checkout_turn-IsStarted (select x c n) (select-IsStarted n) l a ck' w' (inl s)

  -- Where the pool had no connection at once but its checkout wins the race, the connection that was
  -- begun meanwhile has been started and is left to finish, not dropped.
  pub started_is_kept :
      (n : ℕ) (config : Config) (descriptor : D) (w w1 w2 w3 : c.World) (ck ck' : c.C)
      (p : Pooled x) (connecting : Lazy D c.R)
      → c.is_enabled ≡ true
      → c.checkout descriptor w ≡ (ck, w1)
      → c.poll_checkout ck w1 ≡ (waiting, ck', w2)
      → select x c (suc n) ck (init descriptor) w1 ≡ (some (left (ok p) connecting), w3)
      → one_connection_for x c (suc n) config descriptor w ≡ (some (ok p), c.execute connecting w3)
  unfolding one_connection_for settle
  started_is_kept n config descriptor w w1 w2 w3 ck ck' p connecting on out pending won =
      let keeps =
        checkout_turn-IsStarted (select x c n) (select-IsStarted n) (init descriptor) waiting ck' w2
          (inr refl) in
      let turn : select x c (suc n) ck (init descriptor) w1
          ≡ checkout_turn x c (select x c n) (init descriptor) (waiting, ck', w2) =
        ap (checkout_turn x c (select x c n) (init descriptor)) pending in
      let begun : started connecting ≡ true = subst IsStarted (sym turn ∙ won) keeps in
      rw (on, out, won, begun) refl

  -- Not a checkout that has to be tried again.
  abbrev IsFinal : Option (Result (ClientConnectError x) (Pooled x)) × c.World → Type 0
  IsFinal (some (err (checkout_is_closed e)), w) = ⊥
  IsFinal _ = Unit {0}

  from_connect-IsFinal :
      (a : Option (Result (Error x) (Pooled x)) × c.World) → IsFinal (from_connect x c a)
  from_connect-IsFinal (none, w) = tt
  from_connect-IsFinal (some (ok p), w) = tt
  from_connect-IsFinal (some (err e), w) = tt

  from_checkout-IsFinal :
      (config : Config)
      → ver_is_http2 config.ver ≡ false
      → (a : Option (Result Handles.Error (Pooled x)) × c.World)
      → IsFinal (from_checkout x c config a)
  from_checkout-IsFinal config h (none, w) = tt
  from_checkout-IsFinal config h (some (ok p), w) = tt
  from_checkout-IsFinal config h (some (err e), w) = rw (h, from_checkout) tt

  settle-IsFinal :
      (n : ℕ) (config : Config)
      → ver_is_http2 config.ver ≡ false
      → (s : Option (Selected x c) × c.World) → IsFinal (settle x c n config s)
  unfolding settle
  settle-IsFinal n config h (none, w) = tt
  settle-IsFinal n config h (some (left (ok p) l), w) = tt
  settle-IsFinal n config h (some (right (ok p) ck), w) = tt
  settle-IsFinal n config h (some (left (err e) l), w) = elim (Bool-cases (error_is_canceled e)) [
    | inl b ↦ rw (b, settle) (from_connect-IsFinal (await_connect x c n l w))
    | inr b ↦ rw (b, settle) tt
  ]
  settle-IsFinal n config h (some (right (err e) ck), w) = elim (Bool-cases (is_canceled x e)) [
    | inl b ↦ rw (b, settle) (from_checkout-IsFinal config h (await_checkout x c n ck w))
    | inr b ↦ rw (b, settle) tt
  ]

  if-IsFinal :
      (b : Bool) (s t : Option (Result (ClientConnectError x) (Pooled x)) × c.World)
      → IsFinal s
      → IsFinal t
      → IsFinal (if b then s else t)
  if-IsFinal true s t h k = h
  if-IsFinal false s t h k = k

  one_connection_for-IsFinal :
      (n : ℕ) (config : Config) (descriptor : D) (w : c.World)
      → ver_is_http2 config.ver ≡ false
      → IsFinal (one_connection_for x c n config descriptor w)
  unfolding one_connection_for
  one_connection_for-IsFinal n config descriptor w h =
      let (ck, w') = c.checkout descriptor w in
      if-IsFinal (not c.is_enabled) _ _
        (from_connect-IsFinal (await_connect x c n (init descriptor) w))
        (settle-IsFinal n config h (select x c n ck (init descriptor) w'))

  on_found-once :
      (config : Config) (f g : c.World → Option (Result (Error x) (Pooled x)) × c.World)
      (a : Option (Result (ClientConnectError x) (Pooled x)) × c.World)
      → IsFinal a ⊎ (config.retry_canceled_requests ≡ false)
      → on_found x c config f a ≡ on_found x c config g a
  on_found-once config f g (none, w) h = refl
  on_found-once config f g (some (ok p), w) h = refl
  on_found-once config f g (some (err (normal e)), w) h = refl
  on_found-once config f g (some (err (checkout_is_closed e)), w) (inl h) = elim h [ ]
  on_found-once config f g (some (err (checkout_is_closed e)), w) (inr h) = rw h refl

  -- The loop of `connection_for` takes one turn alone, whatever happens in it, unless the client is for
  -- HTTP/2 only and retries canceled requests.
  connection_for-once :
      (turns n : ℕ) (config : Config) (descriptor : D) (w : c.World)
      → (ver_is_http2 config.ver ≡ false) ⊎ (config.retry_canceled_requests ≡ false)
      → connection_for x c (suc turns) n config descriptor w
        ≡ connection_for x c 1 n config descriptor w
  unfolding connection_for
  connection_for-once turns n config descriptor w (inl h) =
      on_found-once config _ _ (one_connection_for x c n config descriptor w)
        (inl (one_connection_for-IsFinal n config descriptor w h))
  connection_for-once turns n config descriptor w (inr h) =
      on_found-once config _ _ (one_connection_for x c n config descriptor w) (inr h)
