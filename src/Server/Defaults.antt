-- ===== src/Server/Defaults.antt =====
-- The default values of ooo.go's `Server`, which `Start` fills in. An object, or a function
-- without a result, is named by a number, `none` is nil, and the default ones are named by 0.
-- Durations are in nanoseconds.
use ooo.Base.{
  ℕ, zero, ◌*◌, Bool, true, List, [], ◌∷◌, Option, none, some, Text, codes, ◌≡◌, ◌≢◌, ℤ, pos, ◌⊎◌,
}
use ooo.Stream.{Stream, Pool, no_cache, init_clock}

-- The fields of `Server` that have defaults. `R` is the type of requests.
pub record Config (R : Type 0) : Type 0 where
  pub router : Option ℕ
  pub deadline : ℤ
  pub on_close : Option ℕ
  pub allowed_origins : List Text
  pub allowed_methods : List Text
  pub allowed_headers : List Text
  pub console : Option ℕ
  pub stream_console : Option ℕ
  pub storage : Option ℕ
  pub tick : ℤ
  pub read_timeout : ℤ
  pub write_timeout : ℤ
  pub read_header_timeout : ℤ
  pub idle_timeout : ℤ
  pub audit : Option (R → Bool)
  pub on_subscribe : Option (Text → Bool)
  pub stream_on_subscribe : Option (Text → Bool)
  pub on_unsubscribe : Option ℕ
  pub stream_on_unsubscribe : Option ℕ
  pub workers : ℤ
  pub no_broadcast_keys : Option (List Text)
  pub client : Option ℕ
  pub force_patch : Bool
  pub no_patch : Bool
  pub stream : Stream

unfoldable pub or_else {ℓ} : {A : Type ℓ} → Option A → Option A → Option A
or_else none default = default
or_else (some a) default = some a

unfoldable pub nonzero_or : ℤ → ℤ → ℤ
nonzero_or (pos zero) default = default
nonzero_or z default = z

unfoldable pub nonempty_or : List Text → List Text → List Text
nonempty_or [] default = default
nonempty_or (t ∷ l) default = t ∷ l

abbrev pub seconds : ℕ → ℤ
seconds n = pos (n * 1000000000)

module _ {R : Type 0} where
  unfoldable pub defaults : Config R → Config R
  defaults app =
      let console = or_else app.console (some 0) in
      let on_subscribe = or_else app.on_subscribe (some (λ key. true)) in
      let on_unsubscribe = or_else app.on_unsubscribe (some 0) in
      record app {
        router = or_else app.router (some 0);
        deadline = nonzero_or app.deadline (seconds 10);
        on_close = or_else app.on_close (some 0);
        allowed_origins = nonempty_or app.allowed_origins (codes "*" ∷ []);
        allowed_methods =
            nonempty_or app.allowed_methods
              (codes "GET" ∷ codes "POST" ∷ codes "DELETE" ∷ codes "PUT" ∷ codes "PATCH" ∷ []);
        allowed_headers =
            nonempty_or app.allowed_headers (codes "Authorization" ∷ codes "Content-Type" ∷ []);
        console = console;
        stream_console = or_else app.stream_console console;
        storage = or_else app.storage (some 0);
        tick = nonzero_or app.tick (seconds 1);
        read_timeout = nonzero_or app.read_timeout (seconds 60);
        write_timeout = nonzero_or app.write_timeout (seconds 60);
        read_header_timeout = nonzero_or app.read_header_timeout (seconds 10);
        idle_timeout = nonzero_or app.idle_timeout (seconds 10);
        audit = or_else app.audit (some (λ r. true));
        on_subscribe = on_subscribe;
        stream_on_subscribe = or_else app.stream_on_subscribe on_subscribe;
        on_unsubscribe = on_unsubscribe;
        stream_on_unsubscribe = or_else app.stream_on_unsubscribe on_unsubscribe;
        workers = nonzero_or app.workers (pos 6);
        no_broadcast_keys = or_else app.no_broadcast_keys (some []);
        client = or_else app.client (some 0);
        stream =
            init_clock
              (record app.stream { force_patch = app.force_patch; no_patch = app.no_patch });
      }

-- What a default does to a field: one that is not set gets it, one that is set stays.
abbrev pub IsFilled : {A : Type 0} → A → A → A → A → Type 0
IsFilled unset default old new = ((old ≡ unset) × (new ≡ default)) ⊎ ((old ≢ unset) × (new ≡ old))

-- The pool of the clock, without connections.
abbrev pub clock_pool : Pool
clock_pool = record { key = []; cache = no_cache; connections = [] }

-- A server that has all it needs, and keeps what it was given. The hooks of the stream are those of
-- the server where it has none of its own, and so is its console.
pub record IsComplete {R : Type 0} (old new : Config R) : Type 0 where
  pub router : IsFilled none (some 0) old.router new.router
  pub deadline : IsFilled (pos 0) (pos 10000000000) old.deadline new.deadline
  pub on_close : IsFilled none (some 0) old.on_close new.on_close
  pub allowed_origins : IsFilled [] (codes "*" ∷ []) old.allowed_origins new.allowed_origins
  pub allowed_methods :
      IsFilled []
        (codes "GET" ∷ codes "POST" ∷ codes "DELETE" ∷ codes "PUT" ∷ codes "PATCH" ∷ [])
        old.allowed_methods
        new.allowed_methods
  pub allowed_headers :
      IsFilled []
        (codes "Authorization" ∷ codes "Content-Type" ∷ [])
        old.allowed_headers
        new.allowed_headers
  pub console : IsFilled none (some 0) old.console new.console
  pub stream_console : IsFilled none new.console old.stream_console new.stream_console
  pub storage : IsFilled none (some 0) old.storage new.storage
  pub tick : IsFilled (pos 0) (pos 1000000000) old.tick new.tick
  pub read_timeout : IsFilled (pos 0) (pos 60000000000) old.read_timeout new.read_timeout
  pub write_timeout : IsFilled (pos 0) (pos 60000000000) old.write_timeout new.write_timeout
  pub read_header_timeout :
      IsFilled (pos 0) (pos 10000000000) old.read_header_timeout new.read_header_timeout
  pub idle_timeout : IsFilled (pos 0) (pos 10000000000) old.idle_timeout new.idle_timeout
  pub audit : IsFilled none (some (λ r. true)) old.audit new.audit
  pub on_subscribe : IsFilled none (some (λ key. true)) old.on_subscribe new.on_subscribe
  pub stream_on_subscribe :
      IsFilled none new.on_subscribe old.stream_on_subscribe new.stream_on_subscribe
  pub on_unsubscribe : IsFilled none (some 0) old.on_unsubscribe new.on_unsubscribe
  pub stream_on_unsubscribe :
      IsFilled none new.on_unsubscribe old.stream_on_unsubscribe new.stream_on_unsubscribe
  pub workers : IsFilled (pos 0) (pos 6) old.workers new.workers
  pub no_broadcast_keys : IsFilled none (some []) old.no_broadcast_keys new.no_broadcast_keys
  pub client : IsFilled none (some 0) old.client new.client
  pub force_patch : (new.force_patch ≡ old.force_patch) × (new.stream.force_patch ≡ old.force_patch)
  pub no_patch : (new.no_patch ≡ old.no_patch) × (new.stream.no_patch ≡ old.no_patch)
  pub pools : IsFilled [] (clock_pool ∷ []) old.stream.pools new.stream.pools
  pub written : (new.stream.written ≡ old.stream.written) × (new.stream.closed ≡ old.stream.closed)
