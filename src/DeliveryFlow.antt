-- ===== src/DeliveryFlow.antt =====
-- backend/app/services/delivery_flow_service.py: a driver accepts an order, reports locations and
-- completes the delivery with the customer's code; the order chat.
pub mod Codes
pub mod Chat
pub mod Lockout
pub mod Handover
