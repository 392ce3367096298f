-- ===== src/Lib.antt =====
-- The marketplace backend: its services as functions on an explicit database, its websocket gateway
-- as a step function, and what they keep.
--
-- The backend is a FastAPI application over PostgreSQL. An endpoint gets a session from `get_db`
-- (backend/app/api/deps.py), which commits when the endpoint returns and rolls back when it raises;
-- the services in backend/app/services do the work within the session. Customers order from the
-- seller who invited them; sellers move an order along and deliver it themselves or ask for a
-- driver, whom an admin assigns; the driver completes the delivery with a code that the customer
-- holds; completed and cancelled orders are erased after a time of retention. Accounts come by
-- invitation only; users and the sellers who invited them exchange sealed messages; the gateway
-- tells open connections of messages and of deliveries on their way.
--
-- Common: tables as lists of rows with the selects, updates and deletes that the services use.
-- Models: the rows of backend/app/models with the columns that are read or written, and the
--   database as one record of tables.
-- Session: a service call takes the database to a result (a value or an exception) and the database
--   that the session then holds. `request` is `get_db` around a call. The rules say how a property
--   of the database passes through a chain of calls. Transaction is for services that commit in
--   their middle: an exception after that rolls back to the commit.
-- Orders: backend/app/services/order_service.py. Loading has its loaders and guards; Transitions,
--   Delivering and Closing the operations on the state; Placing `create_order`; Retention the
--   settings, `delete_order` and `run_purge_job`; Responses the rendering and its mask; Views the
--   lists, with the masks as `list_orders` of backend/app/api/v1/orders.py applies them. Masks says
--   what a rendered order shows; Effects says for each operation what it leaves; Lifecycle has the
--   state machine and all calls as one type; Timeline the timestamps; Requests the driver
--   assignments; Stock, Deletion, Purged and Privacy the theorems that their names say.
-- DeliveryFlow: backend/app/services/delivery_flow_service.py, with `list_chat` of
--   backend/app/api/v1/delivery_flow.py.
-- Tracking: backend/app/services/delivery_tracking_service.py.
-- Invites: backend/app/services/invite_service.py.
-- Catalog: backend/app/services/product_service.py and store_service.py. Products has what a caller
--   sees, Stores and Changes what a seller writes.
-- Sellers: backend/app/services/seller_service.py. Dashboard has its functions, with sums over the
--   snapshots and the orders; Completion says how a completed order enters them.
-- Auth: backend/app/services/auth_service.py. Security has backend/app/core/security.py with the
--   keys of backend/app/core/config.py, and the guards of backend/app/api/deps.py; Accounts signing
--   up and in, Sessions the refresh tokens, Profile the caller's own row and preferences. Limits
--   counts the sign-ups with one invitation.
-- Messaging: Keys is backend/app/services/key_service.py; Conversations and Messages are
--   backend/app/services/messaging_service.py.
-- Gateway: backend/app/ws/gateway.py. Registry has `ConnectionRegistry`, Events what the sockets
--   carry, Handler the turns of `handle_ws` and the broadcasts. A run is a list of happenings:
--   handshakes, messages, disconnections and broadcasts, each message with the database of its
--   time.
-- Admin: backend/app/services/admin_service.py. Pages has the cursors, Actions the rest.
-- Tests: a small shop, and each theorem applied to it.
--
-- A clock reading is an argument of a call, in microseconds, and a call that reads the clock twice
-- takes two where they may differ; so are the ids that it draws, as numbers. SHA-256 is a
-- parameter, and argon2 and jose are functions of a record, with what is asked of them among the
-- hypotheses. An email address, a password, a token and a hash are numbers, since they are only
-- compared. Amounts, quantities and coordinates are natural numbers, compared and stored but, for
-- coordinates, not computed with. A select by a unique column takes the first row with the key, and
-- theorems that depend on uniqueness say so; `scalar_one_or_none` on other selects raises on two
-- rows as the library does. Row locks have no counterpart, since a call runs alone, and so does a
-- turn of the gateway. The loops are over lists, by recursion on the list, but for the search for a
-- free slug: it gets one turn more than there are stores, which is enough. Trimming, lower case and
-- slugs are functions of a record.
--
-- Not modelled: the list of common passwords, the figures that admins see, push, uploads, the
-- heartbeat of the gateway, the estimate of arrival times (floating point), the routers that only
-- call a service, and the schemas that check the requests. Rows that other sessions change at the
-- same time are outside the model.
pub mod Common
pub mod Models
pub mod Session
pub mod Orders
pub mod DeliveryFlow
pub mod Tracking
pub mod Invites
pub mod Catalog
pub mod Sellers
pub mod Messaging
pub mod Auth
pub mod Gateway
pub mod Admin
pub mod Tests
