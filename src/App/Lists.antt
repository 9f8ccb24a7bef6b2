-- ===== src/App/Lists.antt =====
-- internal/app/inbound_receipt_list_service.go, webhook_delivery_list_service.go,
-- suppression_read_services.go and read_services.go: the services that list. Each holds a default
-- limit and hands a request without a positive limit on with that default; the read services with
-- no limit hand their call on unchanged.
use agent_layer.Prelude.{String, List, if◌then◌else◌}
use agent_layer.Prelude.Int.{ℤ, pos, leb_ℤ}
use agent_layer.Prelude.Exec.{Exec}

-- The limit that New…ListService keeps.
unfoldable pub default_limit : ℤ → ℤ
default_limit limit = if leb_ℤ limit (pos 0) then pos 20 else limit

-- The limit that a call passes on.
unfoldable pub requested_limit : ℤ → ℤ → ℤ
requested_limit kept limit = if leb_ℤ limit (pos 0) then kept else limit

module _ {S A : Type 0} where
  -- ListInboundReceipts, ListWebhookDeliveries and ListSuppressions
  unfoldable pub list_limited : (ℤ → Exec S (List A)) → ℤ → ℤ → Exec S (List A)
  unfolding default_limit requested_limit
  list_limited list configured limit = list (requested_limit (default_limit configured) limit)

  -- ListThreadMessages
  unfoldable pub list_thread_messages :
      (String → ℤ → Exec S (List A)) → ℤ → String → ℤ → Exec S (List A)
  unfolding default_limit requested_limit
  list_thread_messages list configured thread_id limit =
      list thread_id (requested_limit (default_limit configured) limit)
