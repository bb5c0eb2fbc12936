-- ===== src/Api/Webhook.antt =====
-- The HTTP handler of SMS messages: controller/handlers.go over webhook/sms.go and the services.
pub mod Handle
pub mod Refusals
pub mod Delivery
