-- ===== src/Connection.antt =====
-- shared/connection: the managers of the connections to Redis and MongoDB. A client is a number, by
-- which the driver knows it. Each method holds the manager's lock while it runs, so the methods are
-- functions of the manager's state; what they log is not modelled.
pub mod RedisManager
pub mod MongoManager
