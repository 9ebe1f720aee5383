-- ===== src/Lib.antt =====
-- A verification library for EnkiNet, a C++ library for networked games: packets, signals, remote
-- procedure calls, and servers and clients on the transport library enetpp.
--
-- A game builds a packet with the stream operators, a server or a client hands its bytes to the
-- transport, the other side builds a packet from them and puts it in a queue, and an update emits it
-- to the functions that are connected to a signal. A remote procedure call is a packet that names an
-- entity and a function and carries the arguments.
--
-- Common      shared names: Boolean tests, lists over the native numbers, results, bits.
-- Packet      src/EnkiNet/Networking/Packet.hpp and Packet.cpp. `Packet` is the class with its buffer
--             and four cursors; serialize and deserialize grow and check the buffer as the code does;
--             Packet/Codec has the stream operators, Packet/Bits writeBits and readBits,
--             Packet/Floats the compressed floats, over a record of floating-point operations.
-- Entity      src/EnkiNet/Entity.hpp: EntityInfo, its operators and isOwner.
-- Signal      src/EnkiNet/Signals: signals, slots, connections and managed connections. The signals
--             that are alive are a map from the addresses of their disconnectors.
-- Rpc         src/EnkiNet/Networking/RPC.hpp, RPCManager.hpp and RPCManager.cpp: the registries,
--             RPCInfo, receive and call. The order in which a call evaluates its arguments is a
--             parameter.
-- Server      src/EnkiNet/Networking/Server.cpp, ServerStandard.cpp and ServerHost.cpp: the queue, the
--             ids, the handlers of the transport and the sends; also Client::update and
--             ClientHost::sendPacket.
-- Client      src/EnkiNet/Networking/ClientStandard.cpp: the id and the handlers of the transport.
-- Scenegraph  src/EnkiNet/Scenegraph.cpp: the map of entities, creation with children, deletion and the
--             finders; Scenegraph/Serving is the handler of the server, with Routing for calls,
--             Scenegraph/Client that of the client, Scenegraph/Tick that of the network tick, and
--             Scenegraph/Update the loop over the entities.
--             Scenegraph/Joining has what a client that joins gets. What a
--             server sends is a list of packets with their receivers. What a game adds to an entity is
--             a parameter.
-- NetworkManager  src/EnkiNet/Managers/NetworkManager.cpp: starting and stopping of server and client.
-- Timer       src/EnkiNet/Timer.hpp and Timer.cpp; what the clock says is an argument.
-- Demos       the rules of the games in demos, over Demos/Scalar, a record of the operations on floats.
--             Demos/Asteroids: Asteroid.cpp, Bullet.cpp, Player.cpp, CollisionManager.cpp and Game.cpp;
--             Demos/Pong: Paddle.cpp, Ball.cpp, Score.cpp, Collision.cpp and Game.cpp; Demos/Shooter:
--             Player.cpp, HealthSpawner.cpp, Floor.cpp, Managers/MapManager.cpp and Game.cpp; Demos/Start: how
--             a game starts a host or a client; Demos/InputManager: Managers/InputManager.cpp of Asteroids, of
--             which Shooter has a copy. What a game asks of the scenegraph and of the RPC manager is a list
--             of requests, in order.
-- Tests       the results at concrete inputs, and small runs.
--
-- Bytes are numbers below 256, machine integers are numbers with their wrap-around written out, and a
-- std::size_t does not wrap round, but where an asteroid subtracts from one. An exception is `throws`,
-- and what C++ leaves undefined, such as a read behind a buffer, is `fault`. A handler of received
-- packets gives the state that it leaves and what it throws. The loops of writeBits and readBits take
-- as fuel one more than the number of bits, which is enough because each round moves a bit. Integers
-- are stored with the lowest byte first and std::size_t has 8 bytes, as on x86-64.
--
-- createNetworkedEntity takes as fuel the depth of its recursion, for which the height of a type over
-- its children is enough; for a type below itself none is.
--
-- Of a game's class, onSpawn sees nothing but its packet and its own entity, and update, in the loop of
-- the scenegraph, creates no entity. The frames of the demos are without the updates of the network
-- manager, the input manager and the scenegraph, which the same function calls.
--
-- Not modelled: functions of classes that are no entities, whose registration does
-- not compile; logging, clocks and threads, whose effects are arguments and steps; drawing, texts and
-- windows; the libraries enet, enetpp, spdlog and SFML. What C++ and SFML do with floats, angles and
-- random numbers is given by parameters.
mod Common
pub mod Packet
pub mod Entity
pub mod Signal
pub mod Rpc
pub mod Server
pub mod Client
pub mod Scenegraph
pub mod NetworkManager
pub mod Demos
pub mod Timer
pub mod Tests
