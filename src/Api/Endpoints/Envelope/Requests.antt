-- ===== src/Api/Endpoints/Envelope/Requests.antt =====
-- The form of the response to every request.
use fleet_tracking_backend.Store.Session.{Session}
