-- ===== src/Lib.antt =====
-- tiny-chat-microservices: a chat server of several Python services. A client talks to an HTTP
-- gateway and to WebSocket gateways; the gateways call the auth, user, upstream and push services
-- over gRPC; messages pass through RabbitMQ streams and queues to workers, which write them to
-- Cassandra and push them to the receivers; Redis holds refresh tokens, rate limits, the block list
-- and the delivery ids, PostgreSQL the users and their friends.
--
-- The files follow the parts of the program; child modules hold what is proved of their parent.
-- - Prelude: names of the libraries, Boolean tests, Python's exceptions and dicts
-- - Rpc: chat/common/src/chatp/rpc, model.py and grpc_wrapper.py
-- - Db: chat/common/src/chatp/database, model.py, postgres/executor.py (time_reserve) and
--   postgres/backend.py (release)
-- - Redis: chat/common/src/chatp/redis, client.py and model.py; Redis/CacheService models the calls of
--   cache_service.py that put a task into its channels
-- - Users: chat/microservices/user/user_servicer.py; user_login is UserLogin, and so on
-- - Friends: chat/microservices/user, friend_servicer.py and create_friend of executor/friend.py
-- - Auth: chat/microservices/auth, algo/authentication.py, algo/backend.py and auth_handler.py;
--   Auth/Servicer and Auth/Confirmation model auth_service.py (auth_login is AuthLogin)
-- - Push: chat/microservices/push, utils/collector.py and push_service.py
-- - Upstream: chat/microservices/upstream, upstream_service.py and rmq/service.py
-- - Gateway: chat/http_gateway; Gateway/Account models routes/user.py, Gateway/Authentication
--   middlewares/auth.py, Gateway/Guard ratelimiter.py and allow_or_deny.py, Gateway/Inbox
--   routes/chat.py (pull_inbox), Gateway/Friends routes/friend.py
-- - Messages: chat/common/src/chatp/message; Messages/Spans and Messages/AckQueue model queue.py,
--   Messages/Stream stream.py, sender.py and receiver.py; Messages/Offsets models
--   chat/common/src/chatp/rmq/stream, model.py and consumer.py
-- - Aggregator: chat/common/src/chatp/utils/aggregator.py; join and resume are the parts of aggregate
--   before and behind its wait, finish is the end of _execute
-- - WsGateway: chat/ws_gateway; WsGateway/Manager and WsGateway/Session model manager/session.py,
--   WsGateway/Endpoint routes/ws.py (under_lock is the body of websocket_endpoint under the lock,
--   end_session its end), WsGateway/PushChannel manager/push.py
-- - Worker: chat/worker; Worker/Pacer models utils/pacer.py, Worker/Outbox utils/mixin.py,
--   impl/msg_consumer_worker.py and impl/dlq_worker.py, Worker/FriendEvents the two workers of friend
--   events and rpc/push_service.py
-- - Connections: chat/common/src/chatp, rpc/grpc_service.py and manager/loadbalance.py;
--   Connections/Reconnect models GrpcStub, Connections/Get GrpcStubGroup.get, Connections/Repository
--   and Connections/Monitor GrpcStubRepositorty, Connections/Route LoadBalancer.route,
--   Connections/Services GrpcService with manager/grpc_client.py
-- - Discovery: chat/common/src/chatp/manager/service.py; Discovery/Usage models statistic.py
-- - Storage: chat/microservices/cass_msg_storage/cass_storage_service.py; Storage/Slots puts the calls
--   of cal_bucket_val of several processes together
-- - Downstream: chat/microservices/downstream, downstream_service.py and rpc/cass_storage_service.py
-- - Examples: runs on concrete inputs
--
-- State. The refresh tokens in Redis are a dict that the operations of Auth take and return; the
-- pacer keeps a record per sender, of which one is modelled; the pool of connections has its three
-- collections, with numbers for the connections; a channel of Push keeps its futures under
-- numbers, and the tracer of Upstream is its cache. The objects that a queue of acknowledgements
-- or the session manager uses again are numbers, so that two places can hold one object; the
-- linked list of the queue is the list of its spans in order. A repository of channels holds its
-- groups under numbers, since its dict and its round robin share them. The endpoint of a WebSocket
-- meets other endpoints at its awaits, which arguments stand for. The cache of locks of an
-- Aggregator may be changed by the others at any time. A call of the pacer is cut at its awaits,
-- and Worker/Pacer/Runs has a step relation over the pieces, so calls interleave in every order. A
-- handler of a service is a function from what the other services answer to its reply;
-- Gateway/Login and Gateway/Register put the services together over channels.
--
-- Parameters. PyJWT (Auth.Jwt), itsdangerous (Auth.Confirmation.Serializer), the gRPC channel
-- (Rpc.Channel), the password hash, md5, the SQL statements, Redis and the queues are parameters;
-- the records state the documented behaviour of the first three.
--
-- Numbers are natural numbers; Python's integers do not overflow. Times are whole seconds, and
-- retry times milliseconds. `user_register` and `confirm_accepted` take fuel, since their loops
-- may go on as long as the executor reports duplicates; one more than the number of duplicates is
-- enough. The loop of `on_handled_new_item` gets one more than the number of ids in the dict,
-- which is enough as each turn passes over one of them.
--
-- Not modelled: the connection to etcd and its lease, groups of stubs that share a channel with
-- siblings, the task queues of the Redis cache service, drivers, processes and starters, the
-- statements of Cassandra, the terminal client, and generated code; of the WebSocket gateway the
-- tasks that read and write frames and the cancellation of an endpoint, and of the offsets of a
-- stream the client behind them.
pub mod Prelude
pub mod Rpc
pub mod Db
pub mod Users
pub mod Auth
pub mod Gateway
pub mod Redis
pub mod Worker
pub mod Connections
pub mod Discovery
pub mod Storage
pub mod Downstream
pub mod Examples
pub mod Push
pub mod Friends
pub mod Upstream
pub mod WsGateway
pub mod Messages
pub mod Aggregator
