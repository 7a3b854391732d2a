-- ===== src/Api.antt =====
-- app/api: the endpoints between the HTTP framework and the services. A request is checked by the
-- gate and the schemas, handed to a service, and answered with a status and a JSON body.
pub mod Responses
pub mod Bodies
pub mod Shape
pub mod Inputs
pub mod Endpoints
