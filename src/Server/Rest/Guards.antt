-- ===== src/Server/Rest/Guards.antt =====
-- What the handlers of rest.go refuse, and what a refused request leaves as it was.
use ooo.Base.{true, false, ◌&&◌, none, some, Text, ◌≡◌, if◌then◌else◌, arith, ℤ, codes}
use ooo.Meta.{Codec}
use ooo.Memory.State.{Exec, Reply}
use ooo.Filters.{Filter, Hook, first_match, check, check_static, check_hooks, undefined_route}
use ooo.Messages.{Wire, decode_reader}
use ooo.Server.{Server, fetch}
use ooo.Server.Rest.{Request, text, is_writable, write_request, read, unpublish, respond}

module _ (codec : Codec) (wire : Wire) (key_of : Text → Text)
    (operation : Text → Text → Exec (Reply Text)) (r : Request) (app : Server) where
  -- A request to write that is not authorized gets 401, and one of a key that may not be written
  -- 400; the server stays as it is, whatever the operation.
  pub write_request-refuses :
      (r.authorized && is_writable r.key) ≡ false
      → (write_request codec wire key_of operation r app)
        ≡ respond
            (if r.authorized then 400 else 401)
            (text (codes "ooo: pathKeyError key is not valid"))
            app
  unfolding write_request
  write_request-refuses h = ground arith

module _ (codec : Codec) (wire : Wire) (key_of : Text → Text)
    (operation : Text → Text → Exec (Reply Text)) (now : ℤ) (r : Request) (app : Server) where
  -- In static mode an authorized request for a key that may be written, whose body decodes, and
  -- that no filter matches, can neither write, read nor delete: the answer is 400 with the error
  -- of static mode, and the server stays as it is.
  pub static_lem :
      (event : Text)
      → app.static ≡ true
      → r.authorized ≡ true
      → is_writable r.key ≡ true
      → decode_reader wire r.body ≡ some event
      → first_match (λ (f : Filter). f.path) (key_of r.key) app.filters.write ≡ none
      → first_match (λ (f : Filter). f.path) r.key app.filters.read ≡ none
      → first_match (λ (f : Hook). f.path) r.key app.filters.delete ≡ none
      → (write_request codec wire key_of operation r app
          ≡ respond 400 (text (undefined_route (key_of r.key))) app)
        × (read codec now r app ≡ respond 400 (text (undefined_route r.key)) app)
        × (unpublish r app ≡ respond 400 (text (undefined_route r.key)) app)
  unfolding write_request read unpublish is_writable check check_static check_hooks fetch
  static_lem event s a w b fw fr fd = ground arith
