-- ===== src/Lib.antt =====
-- A verification library for the tunnel: two programs, a client and a server, that read packets
-- from a virtual network interface, seal them in an inner session and carry them over a secure
-- transport.
--
-- The parts and their files (source paths are from the repository's root):
-- - Session: src/session.cpp, the state machine `Session`; `transition_to` and
--   `reset_to_handshaking` give the new session and the Boolean result.
-- - InnerSession: src/inner_session.cpp. Codec and Hex are its byte helpers, Development and Aead
--   the two classes (`seal`, `open'`), Create the factory of both builds, Interface what the engine
--   sees of a session. The Windows cryptography calls are the parameter `Bcrypt`; what the code
--   relies on in AES-GCM, for its nonces of 12 bytes and its buffer, is the hypothesis `IsGcm`.
-- - Quic: src/quic_secure_transport.cpp and src/msquic_api.cpp. Framing is the frames on the stream
--   (`append_received_bytes`, `drain`), Thumbprint the certificate hash, Api the reference count,
--   Transport the class `QuicSecureTransport` (`connect`, `perform_handshake`, the callbacks, the
--   data channel, `reset_for_next_client`, `close`). The MsQuic library is the parameter `MsQuic`;
--   its callbacks are events that it delivers, during the waits as lists of events. That it counts the
--   calls that open and close it is the hypothesis `IsLogged`.
-- - NetConfig: src/windows_net_config.cpp, the class `WindowsNetConfigurator`: addresses and DNS in
--   Address, routes in Routes. The calls of Windows are the parameter `IpHelper`; what the code
--   relies on in the deletion of a route is the hypothesis `IsTable`, and that it succeeds `CanDelete`.
-- - SmartRoute: src/smart_route_manager.cpp, the list files, the CIDR entries and the class
--   `SmartRouteManager`. Strings: what the source uses of the standard library's texts (`std::getline`,
--   `std::stoi`, `find`, `isspace`).
-- - Wintun: src/wintun_loader.cpp in Loader, src/wintun_virtual_interface.cpp in Adapter and Routing;
--   Tunnel puts the interface under the engine. The driver is the parameter `Driver`, the loading and
--   freeing of libraries the parameter `Windows`, the file system a function from paths to contents.
--   Ledger counts their calls for one handle: that each call adds to the count that names it and to
--   no other is the hypothesis `DriverLog` of the driver and `LibraryLog` of Windows.
-- - LinuxTun: src/linux_tun_virtual_interface.cpp over the parameter `Kernel`; what the code relies
--   on in the kernel's descriptors is the hypothesis `IsDescribed`.
-- - Pool: src/packet_buffer_pool.cpp. RelayStats: src/relay_stats.cpp, counters modulo 2^64.
-- - Config: include/tunnel/config.hpp and src/config.cpp, `is_valid` of the Windows build;
--   `parse_ipv4` of src/windows_net_config.cpp is an argument, modelled in NetConfig.
-- - Engine: src/tunnel_engine.cpp, over any interface, transport and inner session (`Parts`):
--   `start` and `ensure_session_ready` here, the data path in Forward, the loop, `reset_server_session`
--   and `stop` in Loop. The clock and the thread that stops the loop are a list of signals, one for
--   each round.
-- - DevelopmentAdapters: src/development_adapters.cpp, the loopback interface and the in-process
--   transport; the table of links is a store of addresses, and an operation that follows the
--   address of a destroyed link has no result.
-- - Apps: apps/client_main.cpp and apps/server_main.cpp, from the command line to the configuration of
--   the engine (`client_config`, `server_config`); whether the process is elevated and the environment
--   are arguments. That the default addresses parse is the hypothesis `ParsesDefaults`.
-- - Tests: the theorems at concrete inputs.
--
-- Interaction: the engine calls the interface and the transport through records of operations, and
-- the inner session through `InnerSession`; Parts.antt of DevelopmentAdapters fills them with the
-- development classes, Routing.antt of Wintun and LinuxTun.antt with the real interfaces. The
-- Wintun interface owns a `WindowsNetConfigurator` and a `SmartRouteManager`, which installs its routes
-- through that helper, also from its worker's thread: a refresh by the worker is an event between two
-- calls.
--
-- Bounds and fuel: machine words keep their wrap-around (`% 2 ^ 64`, `% 2 ^ 32`, `% 256`). Only
-- `drain` runs on fuel, the number of bytes plus one; each round takes at least five bytes, and
-- that it never runs out is a result below. The loop of the data plane is bounded by its signals.
--
-- Not modelled: texts of errors and printing (also src/console_utf8.cpp and apps/wintun_probe.cpp);
-- the signal handlers of the programs; the waiting of the smart routes' worker between two refreshes;
-- allocation failures; the mutexes, since each call under one is a single step here.
pub mod Prelude
pub mod Strings
pub mod Session
pub mod InnerSession
pub mod Quic
pub mod Pool
pub mod RelayStats
pub mod Config
pub mod NetConfig
pub mod SmartRoute
pub mod Engine
pub mod DevelopmentAdapters
pub mod Wintun
pub mod LinuxTun
pub mod Apps
pub mod Tests
