-- ===== src/Api/Ids.antt =====
-- internal/api: the ids that the handlers take out of the paths of their routes.
use Prim.Native.Char.{Char}
use Prim.Native.String.{[] as nil, ◌∷◌ as cons}
use text.Mathlib.TextLemmas.{append-nil, append_assoc, cons-append, nil-append, cons≢nil}
use agent_layer.Prelude.{
  String, str_append, Bool, true, false, ◌||◌, List, [], ◌∷◌, ◌≡◌, ◌≢◌, refl, ap, sym, ◌∙◌, All,
  str_ne,
}
use agent_layer.Api.Paths.{
  is_slash, split_path, split_slashes, thread_id_from_thread_path,
  thread_id_from_thread_messages_path, thread_id_from_escalate_path, contact_id_from_path,
  contact_id_from_memory_path, suppression_id_from_path, webhook_delivery_id_from_show_path,
  webhook_delivery_id_from_replay_path, thread_id_from_path, trim_slashes_left, trim_slashes_right,
  cons_unslashed,
}
use agent_layer.Text.Fields.{nonempty, cons_first}
use agent_layer.Api.Routes.{split_path-split_slashes}

unfoldable pub has_slash : String → Bool
has_slash nil = false
has_slash (cons c s) = is_slash c || has_slash s

-- A segment of a path: not empty, and without a slash.
abbrev pub IsSegment : String → Type 0
IsSegment s = (has_slash s ≡ false) × (s ≢ "")

-- The path with the given segments.
unfoldable pub route : List String → String
route [] = nil
route (part ∷ parts) = cons "/" (str_append part (route parts))

or_false : (a b : Bool) → (a || b) ≡ false → (a ≡ false) × (b ≡ false)
or_false true b h = cc
or_false false b h = (refl, h)

split-segment : (s : String) → has_slash s ≡ false → split_slashes s ≡ s ∷ []
unfolding has_slash split_slashes
split-segment nil h = refl
split-segment (cons c s) h =
    let (a, b) = or_false (is_slash c) (has_slash s) h in
    rw (split_slashes, a) (ap (cons_first c) (split-segment s b))

split-slash :
    (s t : String)
    → has_slash s ≡ false
    → split_slashes (str_append s (cons "/" t)) ≡ s ∷ split_slashes t
unfolding has_slash split_slashes
split-slash nil t h = rw (nil-append (cons "/" t)) refl
split-slash (cons c s) t h =
    let (a, b) = or_false (is_slash c) (has_slash s) h in
    rw (cons-append c s (cons "/" t))
      (rw (split_slashes, a) (ap (cons_first c) (split-slash s t b)))

split-route :
    (part : String) (parts : List String)
    → All IsSegment (part ∷ parts)
    → split_slashes (str_append part (route parts)) ≡ part ∷ parts
unfolding route split_slashes
split-route part [] ((h, _), _) = rw (append-nil part) (split-segment part h)
split-route part (next ∷ parts) ((h, _), rest) =
    split-slash part (str_append next (route parts)) h
    ∙ ap (λ ps. part ∷ ps) (split-route next parts rest)

nonempty-segments : (parts : List String) → All IsSegment parts → nonempty parts ≡ parts
nonempty-segments [] h = refl
nonempty-segments (part ∷ parts) ((_, p), h) =
    rw (str_ne part "" p) (ap (λ ps. part ∷ ps) (nonempty-segments parts h))

-- A path that is built of segments is split into these segments.
pub split_path-route :
    (parts : List String) → All IsSegment parts → split_path (route parts) ≡ parts
unfolding route split_slashes
split_path-route [] h = split_path-split_slashes nil
split_path-route (part ∷ parts) h =
    split_path-split_slashes (route (part ∷ parts))
    ∙ rw (split-route part parts h) (nonempty-segments (part ∷ parts) h)

-- Nothing is trimmed from the end of a text that ends with a text that is kept and not empty.
trim_right-append :
    (s t : String) (c : Char)
    → trim_slashes_right (cons c t) ≡ cons c t
    → trim_slashes_right (str_append s (cons c t)) ≡ str_append s (cons c t)
unfolding trim_slashes_right
trim_right-append nil t c h = rw (nil-append (cons c t)) h
trim_right-append (cons d s) t c h =
    rw (cons-append d s (cons c t))
      (ap (cons_unslashed d) (trim_right-append s t c h) ∙ unslashed s)
  where
    unslashed :
        (s : String) → cons_unslashed d (str_append s (cons c t)) ≡ cons d (str_append s (cons c t))
    unslashed nil = rw (nil-append (cons c t)) refl
    unslashed (cons e s) = rw (cons-append e s (cons c t)) refl

reply_route :
    (id : String)
    → route ("threads" ∷ id ∷ "reply" ∷ []) ≡ str_append (str_append "/threads/" id) "/reply"
unfolding route
reply_route id =
    let t = str_append id "/reply" in
    sym (
      append_assoc "/threads/" id "/reply"
      ∙ append_assoc "/threads" "/" t
      ∙ ap (str_append "/threads") (cons-append "/" nil t ∙ ap (cons "/") (nil-append t))
      ∙ cons-append "/" "threads" (cons "/" t))

trim_right-reply : (s : String) → trim_slashes_right (str_append s "/reply") ≡ str_append s "/reply"
unfolding trim_slashes_right
trim_right-reply s = trim_right-append s "reply" "/" refl

trim_left-threads :
    (s : String) → trim_slashes_left (str_append "threads" s) ≡ str_append "threads" s
unfolding trim_slashes_left
trim_left-threads s =
    ap trim_slashes_left (cons-append "t" "hreads" s) ∙ sym (cons-append "t" "hreads" s)

-- strings.Trim takes the slash in front of the path off.
trim-reply :
    (id : String)
    → trim_slashes_left (trim_slashes_right (route ("threads" ∷ id ∷ "reply" ∷ [])))
      ≡ str_append "threads" (route (id ∷ "reply" ∷ []))
unfolding route trim_slashes_left
trim-reply id =
    let e = reply_route id in
    ap (λ s. trim_slashes_left (trim_slashes_right s)) e
    ∙ ap trim_slashes_left (trim_right-reply (str_append "/threads/" id))
    ∙ ap trim_slashes_left (sym e)
    ∙ trim_left-threads (route (id ∷ "reply" ∷ []))

-- The ids that the routes carry are those that the handlers read.
pub record ReadsIds (id : String) : Type 0 where
  pub thread : thread_id_from_thread_path (route ("threads" ∷ id ∷ [])) ≡ id
  pub messages : thread_id_from_thread_messages_path (route ("threads" ∷ id ∷ "messages" ∷ [])) ≡ id
  pub reply : thread_id_from_path (route ("threads" ∷ id ∷ "reply" ∷ [])) ≡ id
  pub escalate : thread_id_from_escalate_path (route ("threads" ∷ id ∷ "escalate" ∷ [])) ≡ id
  pub contact : contact_id_from_path (route ("contacts" ∷ id ∷ [])) ≡ id
  pub memory : contact_id_from_memory_path (route ("contacts" ∷ id ∷ "memory" ∷ [])) ≡ id
  pub suppression : suppression_id_from_path (route ("suppressions" ∷ id ∷ [])) ≡ id
  pub delivery :
      webhook_delivery_id_from_show_path (route ("webhooks" ∷ "deliveries" ∷ id ∷ [])) ≡ id
  pub replay :
      webhook_delivery_id_from_replay_path (route ("webhooks" ∷ "deliveries" ∷ id ∷ "replay" ∷ []))
      ≡ id

literal-IsSegment : (c : Char) (s : String) → has_slash (cons c s) ≡ false → IsSegment (cons c s)
literal-IsSegment c s h = (h, cons≢nil)

-- An id that is not empty and has no slash is read back, by the handler of the route, from the path
-- of the route that carries it.
pub route-ReadsIds : (id : String) → IsSegment id → ReadsIds id
unfolding has_slash thread_id_from_path thread_id_from_thread_path
    thread_id_from_thread_messages_path thread_id_from_escalate_path contact_id_from_path
    contact_id_from_memory_path suppression_id_from_path webhook_delivery_id_from_show_path
    webhook_delivery_id_from_replay_path
route-ReadsIds id h =
    let threads : IsSegment "threads" = literal-IsSegment "t" "hreads" refl in
    let contacts : IsSegment "contacts" = literal-IsSegment "c" "ontacts" refl in
    let webhooks : IsSegment "webhooks" = literal-IsSegment "w" "ebhooks" refl in
    let deliveries : IsSegment "deliveries" = literal-IsSegment "d" "eliveries" refl in
    record {
      thread = rw (split_path-route ("threads" ∷ id ∷ []) (threads, (h, tt))) refl;
      messages =
          rw
            (split_path-route ("threads" ∷ id ∷ "messages" ∷ [])
              (threads, (h, (literal-IsSegment "m" "essages" refl, tt))))
            refl;
      reply =
          rw
            (
              trim-reply id,
              split-route "threads" (id ∷ "reply" ∷ [])
                  (threads, (h, (literal-IsSegment "r" "eply" refl, tt))),
            )
            refl;
      escalate =
          rw
            (split_path-route ("threads" ∷ id ∷ "escalate" ∷ [])
              (threads, (h, (literal-IsSegment "e" "scalate" refl, tt))))
            refl;
      contact = rw (split_path-route ("contacts" ∷ id ∷ []) (contacts, (h, tt))) refl;
      memory =
          rw
            (split_path-route ("contacts" ∷ id ∷ "memory" ∷ [])
              (contacts, (h, (literal-IsSegment "m" "emory" refl, tt))))
            refl;
      suppression =
          rw
            (split_path-route ("suppressions" ∷ id ∷ [])
              (literal-IsSegment "s" "uppressions" refl, (h, tt)))
            refl;
      delivery =
          rw
            (split_path-route ("webhooks" ∷ "deliveries" ∷ id ∷ [])
              (webhooks, (deliveries, (h, tt))))
            refl;
      replay =
          rw
            (split_path-route ("webhooks" ∷ "deliveries" ∷ id ∷ "replay" ∷ [])
              (webhooks, (deliveries, (h, (literal-IsSegment "r" "eplay" refl, tt)))))
            refl;
    }
