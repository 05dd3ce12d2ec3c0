-- ===== src/Server/Rest/Refused.antt =====
-- The error paths of rest.go: what a request that fails leaves behind.
use ooo.Base.{
  ℕ, ◌≤◌, true, false, some, Text, ◌≡◌, refl, ap, ◌⊎◌, inl, inr, ◌++◌, codes, arith, Bool-cases,
  Option-cases, ℤ, has, is_empty,
}
use ooo.Key.{is_valid, build}
use ooo.Key.Path.{star}
use ooo.Meta.{Codec}
use ooo.Memory.State.{not_found, returned, Exec, Reply, IsStarted}
use ooo.Memory.Writes
use ooo.Memory.Writes.{Merge, patch_entry}
use ooo.Memory.Effects.{del-returned, is_missing}
use ooo.Filters.{Result, ok, err, check, check_hooks}
use ooo.Messages.{Wire, decode_reader}
use ooo.Server.{Server}
use ooo.Server.Rest.{
  Body, text, storage_error, decode_error, respond, Response, Request, Handler, is_writable,
  write_request, publish, republish, patch, unpublish,
}
use ooo.Server.Rest.Safe.{Safe, set-Safe, patch-Safe, del-missing}

-- The request is answered, with 200 or 204, or with an error, and then the server stays as it is.
abbrev pub Answered : Handler → Server → Type 0
Answered handler app =
    (response : Response) × ((handler app).0 ≡ returned response)
    × ((response.status ≡ 200)
        ⊎ ((response.status ≡ 204) ⊎ ((400 ≤ response.status) × ((handler app).1 ≡ app))))

Result-cases {ℓ} : {A : Type ℓ} (r : Result A) → ((a : A) × (r ≡ ok a)) ⊎ ((e : Text) × (r ≡ err e))
Result-cases (ok a) = inl (a, refl)
Result-cases (err e) = inr (e, refl)

abbrev not_valid : Body
not_valid = text (codes "ooo: pathKeyError key is not valid")

module _ (handler : Handler) (app : Server) where
  refused-Answered :
      (status : ℕ) (body : Body)
      → 400 ≤ status
      → handler app ≡ respond status body app
      → Answered handler app
  refused-Answered status body le e =
      (record { status = status; body = body }, ap (λ t. t.0) e, inr (inr (le, ap (λ t. t.1) e)))

  done-Answered :
      (response : Response)
      → (response.status ≡ 200) ⊎ (response.status ≡ 204)
      → (handler app).0 ≡ returned response
      → Answered handler app
  done-Answered response (inl s) e = (response, e, inl s)
  done-Answered response (inr s) e = (response, e, inr (inl s))

module _ (codec : Codec) (wire : Wire) (key_of : Text → Text)
    (operation : Text → Text → Exec (Reply Text)) (r : Request) (app : Server) where
  abbrev handler : Handler
  handler = write_request codec wire key_of operation r

  write_request-Answered :
      ((bytes : Text) → Safe (operation (key_of r.key) bytes) app.storage) → Answered handler app
  unfolding write_request
  write_request-Answered safe = elim (Bool-cases r.authorized) [
    | inr a ↦ refused-Answered handler app 401 not_valid (omega arith) (ground arith)
    | inl a ↦ elim (Bool-cases (is_writable r.key)) [
      | inr w ↦ refused-Answered handler app 400 not_valid (omega arith) (ground arith)
      | inl w ↦ elim (Option-cases (decode_reader wire r.body)) [
        | inl d ↦ refused-Answered handler app 400 decode_error (omega arith) (ground arith)
        | inr (event, d) ↦
            elim (Result-cases (check codec (key_of r.key) event app.static app.filters.write)) [
              | inr (e, c) ↦ refused-Answered handler app 400 (text e) (omega arith) (ground arith)
              | inl (bytes, c) ↦
                  let (reply, q, outcome) = safe bytes in
                  elim outcome [
                    | inl none_ ↦
                        let response : Response = record {
                          status = 200;
                          body = text (codes "{\"index\":\"" ++ (reply.0 ++ codes "\"}"));
                        } in
                        done-Answered handler app response (inl refl) (ground arith)
                    | inr (e, f, kept) ↦
                        refused-Answered handler app 500 (storage_error e) (omega arith)
                          (ground arith)
                  ]
            ]
      ]
    ]
  ]

unpublish-Answered :
    (r : Request) (app : Server) → IsStarted app.storage → Answered (unpublish r) app
unfolding unpublish
unpublish-Answered r app h = elim (Bool-cases (is_valid r.key)) [
  | inr v ↦ refused-Answered (unpublish r) app 400 not_valid (omega arith) (ground arith)
  | inl v ↦ elim (Bool-cases r.authorized) [
    | inr a ↦ refused-Answered (unpublish r) app 401 not_valid (omega arith) (ground arith)
    | inl a ↦ elim (Result-cases (check_hooks r.key app.static app.filters.delete)) [
      | inr (e, c) ↦ refused-Answered (unpublish r) app 400 (text e) (omega arith) (ground arith)
      | inl (_, c) ↦ elim (Bool-cases (is_missing r.key app.storage)) [
        | inl m ↦
            refused-Answered (unpublish r) app 404 (storage_error not_found) (omega arith)
              (ground (arith, del-returned r.key app.storage h, del-missing r.key app.storage m))
        | inr m ↦
            let response : Response = record {
              status = 204;
              body = text (codes "unpublish " ++ r.key);
            } in
            done-Answered (unpublish r) app response (inr refl)
              (ground (arith, del-returned r.key app.storage h))
      ]
    ]
  ]
]

-- In a started storage every POST, PUT, PATCH of a key without a star and DELETE is answered: with
-- 200 or 204, or with an error status, and then the server, its storage and streams included, is
-- what it was.
pub refused-unchanged :
    (codec : Codec) (wire : Wire) (merge : Merge) (now now' : ℤ) (r q : Request) (app : Server)
    → IsStarted app.storage
    → has star q.key ≡ false
    → Answered (publish codec wire now now' r) app
      × Answered (republish codec wire now r) app
      × Answered (patch codec wire merge now q) app
      × Answered (unpublish r) app
unfolding publish republish patch
refused-unchanged codec wire merge now now' r q app h s = (
  write_request-Answered codec wire (build now) (Writes.set codec now') r app
      (λ bytes. set-Safe codec now' (build now r.key) bytes app.storage h),
  write_request-Answered codec wire (λ key. key) (Writes.set codec now) r app
      (λ bytes. set-Safe codec now r.key bytes app.storage h),
  write_request-Answered codec wire (λ key. key) (Writes.patch codec merge now) q app
      (λ bytes. patch-Safe codec merge now q.key bytes app.storage h s),
  unpublish-Answered r app h,
)

-- An authorized PUT of a body to a pattern that may be written, where the write filter makes
-- `bytes`, which are not empty, of the body, is answered with 200 and stores nothing.
pub republish-silent :
    (codec : Codec) (wire : Wire) (now : ℤ) (r : Request) (app : Server) (event bytes : Text)
    → r.authorized ≡ true
    → is_writable r.key ≡ true
    → has star r.key ≡ true
    → decode_reader wire r.body ≡ some event
    → check codec r.key event app.static app.filters.write ≡ ok bytes
    → is_empty bytes ≡ false
    → (response : Response) × ((republish codec wire now r app).0 ≡ returned response)
      × (response.status ≡ 200)
      × ((republish codec wire now r app).1.storage ≡ app.storage)
unfolding republish write_request Writes.set
republish-silent codec wire now r app event bytes a w s d c n =
    let v : is_valid r.key ≡ true = unfold is_writable in ground arith in
    (
      record { status = 200; body = text (codes "{\"index\":\"" ++ (r.key ++ codes "\"}")) },
      ground arith,
      refl,
      ground arith,
    )
