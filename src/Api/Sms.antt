-- ===== src/Api/Sms.antt =====
-- internal/webhook/sms.go and the services behind it: SMS messages of the gateways.
pub mod Fields
pub mod Parse
pub mod Render
pub mod Values
pub mod HeartbeatTrip
pub mod CriticalTrip
pub mod RoundTrip
