-- ===== src/Runtime/Http/Shown.antt =====
-- Requests that show one record: internal/api over the memory store.
use agent_layer.Prelude.{String, Option, none, some, ◌∷◌, [], ◌≡◌}
use agent_layer.Prelude.Dict
use agent_layer.Memory.Records
use agent_layer.Api.{Formats, Request, Response}
use agent_layer.Api.Lookups
use agent_layer.Api.Ids.{route}
use agent_layer.Runtime.World.{World}
use agent_layer.Runtime.Http.{get_thread, get_contact, get_suppression, get_delivery}

-- 200 with the record, or 404.
abbrev pub shown : {A B : Type 0} → (A → B) → String → Option A → Response B
shown response message none = Response.refused 404 message
shown response message (some a) = Response.encoded 200 (response a)

-- The same request, for another path.
abbrev pub at_path : Request → String → Request
at_path request path = record request { path = path }

module _ (formats : Formats) (request : Request) (id : String) (w : World) where
  pub record Shows : Type 0 where
    pub thread :
        get_thread (at_path request (route ("threads" ∷ id ∷ []))) w
        ≡ (shown Lookups.thread_response "thread not found" (Dict.get w.store.threads_by_id id), w)
    pub contact : get_contact (at_path request (route ("contacts" ∷ id ∷ []))) w ≡ (
      shown Lookups.contact_response "contact not found" (Dict.get w.store.contacts_by_id id),
      w,
    )
    pub suppression :
        get_suppression formats (at_path request (route ("suppressions" ∷ id ∷ []))) w ≡ (
          shown
              (Lookups.suppression_response formats)
              "suppression not found"
              (Dict.get w.store.suppressions_by_id id),
          w,
        )
    pub delivery :
        get_delivery formats (at_path request (route ("webhooks" ∷ "deliveries" ∷ id ∷ []))) w ≡ (
          shown
              (Lookups.webhook_delivery_response formats)
              "webhook delivery not found"
              (Dict.get w.store.webhook_deliveries_by_id id),
          w,
        )
