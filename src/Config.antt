-- ===== src/Config.antt =====
-- The request-scoped configuration of src/config.rs.
use wreq.Base.{Option, none, some, ◌≡◌, refl}
use wreq.Base.Maybe.{unwrap_or, ◌>>=◌}

-- `RequestConfig<T>`, for the value type of a marker.
pub record RequestConfig (V : Type 0) : Type 0 where
  pub value : Option V

-- `http::Extensions`, as far as it holds values of one type `A`.
pub record Extensions (A : Type 0) : Type 1 where
  pub Ext : Type 0
  pub get : Ext → Option A
  pub insert : A → Ext → Ext
  pub remove : Ext → Ext
  pub get-insert : (a : A) (e : Ext) → get (insert a e) ≡ some a
  pub get-remove : (e : Ext) → get (remove e) ≡ none

abbrev pub or {ℓ} : {A : Type ℓ} → Option A → Option A → Option A
or none p = p
or (some a) p = some a

module _ {V : Type 0} (X : Extensions (RequestConfig V)) where
  unfoldable pub fetch : RequestConfig V → X.Ext → Option V
  fetch c ext = or (X.get ext >>= λ r. r.value) c.value

  -- `remove`: the value and the extensions without it.
  unfoldable pub remove : X.Ext → Option V × X.Ext
  remove ext = (X.get ext >>= λ r. r.value, X.remove ext)

  -- `load`: the configuration and the extensions after it; the answer is the configuration's value.
  unfoldable pub load : RequestConfig V → X.Ext → RequestConfig V × X.Ext
  unfolding remove
  load c ext =
      let (v, ext') = remove ext in (elim v [ some a ↦ record { value = some a } | none ↦ c ], ext')

  unfoldable pub take : RequestConfig V → X.Ext → Option V × X.Ext
  take c ext = ((unwrap_or c (X.get ext)).value, X.remove ext)

  unfoldable pub get : X.Ext → Option V
  get ext = X.get ext >>= λ r. r.value

  -- A write of `v` through `get_mut`.
  unfoldable pub write : Option V → X.Ext → X.Ext
  write v ext = X.insert (record { value = v }) ext

  -- A value that is written through `get_mut` is what `get`, `fetch`, `load` and `take` then find,
  -- whatever the client's own value is, and neither `load` nor `take` leaves it behind.
  write-found :
      (c : RequestConfig V) (v : V) (ext : X.Ext)
      → (get (write (some v) ext) ≡ some v)
        × (fetch c (write (some v) ext) ≡ some v)
        × ((load c (write (some v) ext)).0.value ≡ some v)
        × ((take c (write (some v) ext)).0 ≡ some v)
        × (get (load c (write (some v) ext)).1 ≡ none)
        × (get (take c (write (some v) ext)).1 ≡ none)
  unfolding get fetch load take write remove
  write-found c v ext =
      let ext' = X.insert (record { value = some v }) ext in
      let found = X.get-insert (record { value = some v }) ext in
      let gone = X.get-remove ext' in rw (found, gone, load) (refl, refl, refl, refl, refl, refl)
