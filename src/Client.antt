-- ===== src/Client.antt =====
-- client/client.go: a subscription that reconnects, as a run over its connections. What ends a
-- connection, and whether the context was cancelled by then, comes with the connection.
pub mod Feed
pub mod Retries
use ooo.Base.{
  ℕ, suc, Bool, true, false, List, [], ◌∷◌, ◌++◌, Option, none, some, Text, ltb, if◌then◌else◌, ℤ,
}
use ooo.Meta.{Object, Codec}
use ooo.Messages.{Wire, patch, patch_list}

-- `Meta`, with the data as the type of the subscription.
pub record Item (T : Type 0) : Type 0 where
  pub created : ℤ
  pub updated : ℤ
  pub index : Text
  pub content : T

-- The variables of `Subscribe`, with the calls of the callback and the waits, in milliseconds.
pub record Client (T : Type 0) : Type 0 where
  pub cache : Text
  pub retry_count : ℕ
  pub delivered : List (List (Item T))
  pub waits : List ℕ

-- A round of the outer loop: the dial fails, or a connection brings some messages, until it fails, and
-- then the context is cancelled or not.
pub data Attempt : Type 0 where
  failed_dial : Attempt
  connection : List Text → Bool → Attempt

abbrev pub wait_before : ℕ → ℕ
wait_before retry_count =
    if ltb retry_count 30 then 300 else if ltb retry_count 100 then 2000 else 10000

-- `decode_item` is `Unmarshal` of an object's data.
module _ {T : Type 0} (codec : Codec) (wire : Wire) (decode_item : Text → Option T) where
  abbrev pub item_of : Object → T → Item T
  item_of o content = record {
    created = o.created;
    updated = o.updated;
    index = o.index;
    content = content;
  }

  -- The items of a list; an object that does not decode is left out.
  unfoldable pub items : List Object → List (Item T)
  items [] = []
  items (o ∷ objs) =
      let rest = items objs in
      elim (decode_item o.body) [ none ↦ rest | some content ↦ item_of o content ∷ rest ]

  abbrev deliver : List (Item T) → Client T → Client T
  deliver result c = record c { retry_count = 0; delivered = c.delivered ++ result ∷ [] }

  -- A message of a list's subscription, or of an object's: whether the connection goes on.
  unfoldable pub on_list : Text → Client T → Bool × Client T
  on_list message c =
      let (cache, objs, failure) = patch_list wire codec message c.cache in
      let c' : Client T = record c { cache = cache } in
      elim failure [ some _ ↦ (false, c') | none ↦ (true, deliver (items objs) c') ]

  unfoldable pub on_object : Text → Client T → Bool × Client T
  on_object message c =
      let (cache, obj, failure) = patch wire codec message c.cache in
      let c' : Client T = record c { cache = cache } in
      elim failure [
        | some _ ↦ (false, c')
        | none ↦ elim (decode_item obj.body) [
          | none ↦ (false, c')
          | some content ↦ (true, deliver (item_of obj content ∷ []) c')
        ]
      ]

  -- The inner loop.
  unfoldable pub read_loop : Bool → List Text → Client T → Client T
  read_loop is_list [] c = c
  read_loop is_list (message ∷ messages) c =
      let (go_on, c') = if is_list then on_list message c else on_object message c in
      if go_on then read_loop is_list messages c' else c'

  -- The outer loop: true once it has ended.
  unfoldable pub subscribe : Bool → List Attempt → Client T → Bool × Client T
  subscribe is_list [] c = (false, c)
  subscribe is_list (failed_dial ∷ attempts) c =
      subscribe is_list attempts (record c { waits = c.waits ++ 2000 ∷ [] })
  subscribe is_list (connection messages cancelled ∷ attempts) c =
      let c' = read_loop is_list messages c in
      let again : Client T = record c' {
        retry_count = suc c'.retry_count;
        waits = c'.waits ++ wait_before (suc c'.retry_count) ∷ [];
      } in
      if cancelled then (true, c') else subscribe is_list attempts again
