-- ===== src/HttpClient/Building.antt =====
-- `Builder` of src/client/layer/client.rs. The builders of netty and their options are parameters; a
-- duration is in milliseconds.
use wreq.Base.{ℕ, ◌≡◌, refl, Bool, true, Option, none, some, if◌then◌else◌}
use wreq.Config.{RequestConfig}
use wreq.Pool.Handles.{auto, http2}
use wreq.HttpClient.{Crates, Config}

-- What the builder takes from others: netty's builders with their options, and the timers.
pub record Builders : Type 1 where
  pub H1 : Type 0
  pub H2 : Type 0
  pub Http1Options : Type 0
  pub Http2Options : Type 0
  pub Timer : Type 0
  pub new_h1 : H1
  pub new_h2 : H2
  pub default_timer : Timer
  pub options_h1 : Http1Options → H1 → H1
  pub options_h2 : Http2Options → H2 → H2
  pub timer_h2 : Timer → H2 → H2

-- `pool::Config`.
pub record PoolConfig : Type 0 where
  pub idle_timeout : Option ℕ
  pub max_idle_per_host : ℕ
  pub max_pool_size : Option ℕ

-- `usize::MAX` of a 64-bit machine.
abbrev pub usize_max : ℕ
usize_max = 18446744073709551615

module _ (x : Crates) (b : Builders) where
  pub record Builder : Type 0 where
    pub config : Config
    pub h1_builder : b.H1
    pub h2_builder : b.H2
    pub pool_config : PoolConfig
    pub pool_timer : b.Timer
    pub cookie_store : Option x.CookieStore

  -- An `HttpClient`, its executor aside; its pool is what `Pool::new` is given.
  pub record Client (C : Type 0) : Type 0 where
    pub config : Config
    pub connector : C
    pub h1_builder : b.H1
    pub h2_builder : b.H2
    pub pool : PoolConfig × b.Timer
    pub cookie_store : RequestConfig x.CookieStore

  unfoldable pub new : Builder
  new = record {
    config = record { retry_canceled_requests = true; set_host = true; ver = auto };
    h1_builder = b.new_h1;
    h2_builder = b.new_h2;
    pool_config = record {
      idle_timeout = some 90000;
      max_idle_per_host = usize_max;
      max_pool_size = none;
    };
    pool_timer = b.default_timer;
    cookie_store = none;
  }

  unfoldable pub pool_idle_timeout : Option ℕ → Builder → Builder
  pool_idle_timeout val s = record s { pool_config = record s.pool_config { idle_timeout = val } }

  unfoldable pub pool_max_idle_per_host : ℕ → Builder → Builder
  pool_max_idle_per_host max_idle s = record s {
    pool_config = record s.pool_config { max_idle_per_host = max_idle };
  }

  unfoldable pub pool_max_size : Option ℕ → Builder → Builder
  pool_max_size max_size s = record s {
    pool_config = record s.pool_config { max_pool_size = max_size };
  }

  unfoldable pub http2_only : Bool → Builder → Builder
  http2_only val s = record s { config = record s.config { ver = if val then http2 else auto } }

  unfoldable pub http2_timer : b.Timer → Builder → Builder
  http2_timer timer s = record s { h2_builder = b.timer_h2 timer s.h2_builder }

  unfoldable pub http1_options : Option b.Http1Options → Builder → Builder
  http1_options none s = s
  http1_options (some opts) s = record s { h1_builder = b.options_h1 opts s.h1_builder }

  unfoldable pub http2_options : Option b.Http2Options → Builder → Builder
  http2_options none s = s
  http2_options (some opts) s = record s { h2_builder = b.options_h2 opts s.h2_builder }

  unfoldable pub pool_timer : b.Timer → Builder → Builder
  pool_timer timer s = record s { pool_timer = timer }

  unfoldable pub cookie_store : Option x.CookieStore → Builder → Builder
  cookie_store store s = record s { cookie_store = store }

  unfoldable pub build : {C : Type 0} → C → Builder → Client C
  build connector s = record {
    config = s.config;
    connector = connector;
    h1_builder = s.h1_builder;
    h2_builder = s.h2_builder;
    pool = (s.pool_config, s.pool_timer);
    cookie_store = record { value = s.cookie_store };
  }

  -- A client that is built has what its builder was last told: the settings of the pool do not undo one
  -- another nor those of the protocol, in whichever order they are made.
  build_after :
      {C : Type 0} (connector : C) (s : Builder) (timeout : Option ℕ) (max_idle : ℕ)
      (size : Option ℕ) (only : Bool) (store : Option x.CookieStore)
      → let settled = cookie_store store (
          http2_only only
            (pool_max_size size (pool_max_idle_per_host max_idle (pool_idle_timeout timeout s)))) in
        let reversed = pool_idle_timeout timeout (
          pool_max_idle_per_host max_idle
            (pool_max_size size (http2_only only (cookie_store store s)))) in
        (build connector settled ≡ build connector reversed)
        × ((build connector settled).pool.0
            ≡ record { idle_timeout = timeout; max_idle_per_host = max_idle; max_pool_size = size })
        × ((build connector settled).config
            ≡ record s.config { ver = if only then http2 else auto })
        × ((build connector settled).cookie_store.value ≡ store)
  unfolding build pool_idle_timeout pool_max_idle_per_host pool_max_size http2_only cookie_store
  build_after connector s timeout max_idle size only store = (refl, refl, refl, refl)
