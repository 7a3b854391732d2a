-- ===== src/Lib.antt =====
-- The backend of a fleet tracker: drivers and administrators log in, an administrator keeps routes,
-- vehicles, users and assignments, vehicles send their positions over MQTT, and a driver sees the own
-- vehicle and nobody else's. FastAPI handlers call services, the services and the subscriber work on one
-- PostgreSQL database through SQLAlchemy, and a simulator publishes the positions of demo buses. The
-- development models the endpoints, the services, the subscriber, the simulator and the tables.
--
-- The files, and the code that each is about:
--   Prelude         Boolean tests, lists, tables of rows with a key, integers.
--   Errors          app/core/exceptions.py: the error classes; how a service call ends.
--   Config          app/core/config.py: the normalisation of the database URL.
--   Store           app/models/*.py and alembic/versions: the five tables as lists of rows. Store/Schema
--                   has the declared constraints, Store/Session the parameter that stands for
--                   SQLAlchemy and PostgreSQL.
--   Invariant       what holds of the database between requests beyond the constraints: assignments
--                   come in pairs and are exclusive, a current location is a fix of the history and
--                   none of its vehicle's fixes is newer (IsValid). Its children keep it under the changes of
--                   one table.
--   Admin           app/services/fleet_admin_service.py and app/api/v1/admin: Admin/Routes,
--                   Admin/Vehicles, Admin/Users, Admin/Assignment, each with a module Outcomes.
--   Auth            app/core/security.py (Auth/Passwords, Auth/Tokens), app/services/auth_service.py,
--                   app/core/deps.py (Auth/Service).
--   Tracking        app/services/tracking_service.py: Tracking/Status is derive_status, Tracking/Me
--                   what a driver reads.
--   Mqtt            app/mqtt: Mqtt/Topic and Mqtt/Payload are payload.py, Mqtt/Handler is handler.py,
--                   Mqtt/Client is client.py; Mqtt/Payload/Bounds says which payloads are accepted and
--                   Mqtt/Handler/Latest compares the two tables of positions. The topic that
--                   simulator/runner.py publishes to is topic_of. Mqtt/Task is mqtt_subscriber_task,
--                   the reconnect loop, as a state machine of the events that it meets.
--   Api             app/api, the constraints of app/schemas and the handlers of app/core/exceptions.py:
--                   Api/Responses has the answers, the error envelope and the response models,
--                   Api/Bodies the constraints, Api/Inputs the requests and their validation,
--                   Api/Endpoints the function from a request and the database to the response and the
--                   database (respond). Api/Shape says what the schemas make of the stored rows. Below
--                   Api/Endpoints, Served is how each operation ends, Requests what a request does to the
--                   database, Refusals who is refused, Envelope the form of the responses.
--   Serving         the state-changing endpoints and the subscriber as steps of one relation on the
--                   database, and the databases that they lead to from the empty one.
--   Seed            app/seed.py: the missing demo rows, the demo lists being an argument; Seed/Data has the
--                   demo lists themselves. Seed/Again runs it a second time, Seed/Shares after
--                   assignments have changed.
--   Simulator       simulator/walk.py (Simulator/Walk) and simulator/runner.py (Simulator/Runner): a bus
--                   on its polyline, the assignments that a run loads (Runner/Loaded), the fixes of its
--                   ticks (Runner/Fixes, Runner/Ticks) and what the subscriber makes of them
--                   (Runner/Published).
--   Examples        a session that runs, a fleet, and the theorems applied to it.
--
-- How the code is read:
--   - A service function takes the database and returns a result with the new one. A request ends in an
--     AppError or in an exception that no handler expects (Errors.Failure). Logging is left out.
--   - A commit writes all pending changes, or none of them if a declared constraint is violated. A NULL
--     for a column that is NOT NULL ends in the IntegrityError. Every operation runs on its own, except
--     in Admin/Assignment/Race, where two requests interleave.
--   - The number and the time that the server gives to a new row are an argument; theorems ask that
--     the number is not in use, as of a sequence.
--   - Code that is not in the repository is a parameter with its documented behaviour as laws: Session
--     (SQLAlchemy and PostgreSQL), Jwt (PyJWT), Hasher (pwdlib), Decoder (json.loads and the
--     conversions of pydantic), EmailCheck (email-validator). Examples has a concrete instance of each.
--   - Numbers of rows are natural numbers below the limit of BIGINT. Coordinates are counted in
--     millionths of a degree, stored speeds in hundredths of a km/h, the speed of a message in
--     millionths of a km/h, instants in microseconds from the first datetime. The readings nan and
--     inf, which the range checks of a message refuse, have no counterpart.
--   - A datetime with a time zone has its instant and its local clock reading; both lie after the first
--     datetime. Subtracting from it counts on the local clock.
--   - int() is modelled on ASCII characters, with CPython's limit of 4300 digits. Printing a number
--     takes fuel one above the number, more than it has digits.
--   - A request is seen after the framework has matched path and method, decoded the JSON and converted
--     the types: an input that fails there is not_json or ill_typed. The dependencies of an endpoint come
--     before its own parameters, but a body that is no JSON is refused first. EmailStr is a parameter with
--     its normal forms (EmailCheck), and the details of a validation error are an argument.
--   - A bus is measured in 3600ths of a millimetre, so that a speed in millionths of a km/h times seconds is
--     a length; distances add up exactly. The great-circle distance, which is trigonometry of floats, is
--     an argument, and round a parameter (Rounding); so is json.dumps of a fix (Encoder).
--
-- Not modelled: the rounding errors of floats, the connection and subscription of the MQTT clients
-- (network), the engine set-up, CORS and start-up in app/main.py, the matching of paths, log lines, and what
-- PostgreSQL and its driver refuse beyond the declared constraints: a number of 2^63 or more, a text
-- with a NUL character, an instant outside the range of datetime. A request with one of these ends in
-- a 500 where the model finds no row or stores the value, so the theorems are about requests without
-- them, and about a database that can be reached.
pub mod Prelude
pub mod Errors
pub mod Config
pub mod Store
pub mod Auth
pub mod Tracking
pub mod Admin
pub mod Invariant
pub mod Mqtt
pub mod Api
pub mod Serving
pub mod Seed
pub mod Simulator
mod Examples
