-- ===== src/Lib.antt =====
-- netd, the daemon that sets up the network of an Android device: which networks there are, which
-- interfaces they have, and which network the traffic of each app is routed over.
--
-- A command of the framework is a text, which server/CommandListener.cpp reads and turns into calls
-- of the controllers behind it, which it made at the start, after the chains of iptables that they
-- put their rules into. The controller of networks (server/NetworkController.cpp) keeps the
-- networks by their ids, the default network and the permissions of the users, and calls the
-- methods of the networks (server/PhysicalNetwork.cpp and its siblings). These call the route
-- controller (server/RouteController.cpp), which sends rules to the kernel over netlink and runs
-- ip and iptables. A physical network calls back into the controller for the VPNs that fall
-- through to it. The firewall (server/FirewallController.cpp) lets traffic through by rules of
-- iptables. Tethering has three more parts: the DNS and router daemons
-- (server/TetherController.cpp), address translation (server/NatController.cpp), and the counters,
-- quotas and alerts of bytes (server/BandwidthController.cpp), which reads the rules that address
-- translation sets. In an app, the wrappers of the client library (client/NetdClient.cpp) have a
-- socket marked before it is used: they send it to the fwmark server (server/FwmarkServer.cpp),
-- which asks the controller what the app's user may use. The rules of the route controller select
-- by these marks.
--
-- The files:
--   Prelude        names of the libraries, tests on numbers, lists
--   Fwmark         include/Fwmark.h and include/Permission.h; the fields of a mark and its value
--   Containers     std::map and std::set
--   Kernel         the world outside: requests, commands, their answers, and actions that may fail
--   Iptables       execIptables of server/NetdConstants.cpp
--   CStrings       strtoul of the C library; its child Scan has fgets and sscanf
--   Prefix         isIfaceName and parsePrefix of server/NetdConstants.cpp
--   UidRanges      server/UidRanges.cpp; its child Parse has parseFrom
--   Route          server/RouteController.cpp: Requests (modifyIpRule), Priority, Tables, Rules,
--                  Networks (the methods), Paths (routes), and the theorems about them
--   Network        server/Network.cpp, LocalNetwork.cpp, PhysicalNetwork.cpp, VirtualNetwork.cpp
--   Controller     server/NetworkController.cpp: State, Queries, Commands, Routes, and the theorems
--   FwmarkServer   server/FwmarkServer.cpp and include/FwmarkCommand.h
--   CommandListener  server/CommandListener.cpp: Arguments (how words are read), Networks
--                  (NetworkCommand), Meaning (the request or route that its words ask for), Daemon
--                  (the controllers behind it, and the answers), Tethering (ipfwd, tether, nat), Bandwidth, Rules (idletimer, firewall, clatd), Start (the
--                  constructor, with server/oem_iptables_hook.cpp), Daemons (the commands as steps of
--                  one daemon), and the theorems
--   ClatdController  server/ClatdController.cpp: one translation daemon for each interface
--   Client         client/NetdClient.cpp and FwmarkClient.cpp: the wrappers of the socket calls; Serving
--                  (the exchange with the server), Choice (theorems)
--   IdletimerController  server/IdletimerController.cpp: its iptables commands
--   FirewallController  server/FirewallController.cpp; Chains (what its commands leave) and Blocking
--   NatController  server/NatController.cpp: its iptables commands, and the methods; natCount as its
--                  32 bits
--   BandwidthController  server/BandwidthController.cpp: Commands (their texts), Running, Tables (the
--                  chains), Apps, Alerts, Quotas, Stats and Parsing (counters), and the theorems
--   TetherController  server/TetherController.cpp: Advertising (the router daemon), Dns (dnsmasq and
--                  the tethered interfaces), Forwarding, and the theorems
--   Tests          runs on concrete values
--
-- How the code is read. A function that returns a negative errno is an action whose result is `err
-- e` for the C value -e. The kernel is a parameter: its answer to a request may depend on all
-- requests before it, and nothing is assumed of it but where a theorem says so. The requests are
-- recorded in order, with the attributes that are sent; the netlink header and the flags, which
-- follow from the action, are left out. Interface names are strings, permissions are the numbers
-- of the enum, and a mark is the record of its bit fields. Maps and sets are lists in the order of
-- their keys. `std::sort`, `std::inplace_merge`, `std::lower_bound`, `std::set_difference`,
-- `strtoul`, `atoi`, `fgets` and `sscanf` are written out; the width of an unsigned long is a
-- parameter. A method of a network that fails leaves the network as it was, as the code assigns
-- the members last; what other methods leave is written out. Where the code would read past an
-- object, the model has a value for it (`undefined`, `fault`, `crashed`).
--
-- Bytes of type int64_t are held as their 64 bits and printed with their sign. A command of the
-- bandwidth controller is its list of words; that it fits the buffer of 1024 bytes and the array
-- of 32 arguments is tested as in the code, on the length of the printed words, for which 20
-- rounds of digits suffice. An int that callers only test is whether it differs from 0. What files
-- and pipes take and give, the output of commands and the numbers of processes are answers of the
-- kernel. Constructors that leave members unset take their values as arguments.
--
-- The loops go over lists, so no fuel is needed; the loop that flushes routes counts the attempts
-- that are left, one fewer than ROUTE_FLUSH_ATTEMPTS after the first. The loop that clears a
-- network's interfaces goes over those it had at the start.
--
-- Not modelled: the read-write lock of the controller (commands run one after another), the cache
-- of the resolver, logging, what the child of a fork does before it runs a daemon, the loading of
-- the client library, the framework that splits a command's text into words and finds the command
-- by its name (a command is one of the registered ones, with its list of words, here), the commands
-- interface, list_ttys, pppd, softap, resolver and route and their controllers, v6rtradv, which is
-- not registered, the other listeners, the netlink events, and the command-line client. These pass
-- their arguments on to files, processes and libraries, or come after the parts above.
pub mod BandwidthController
pub mod CStrings
pub mod ClatdController
pub mod Client
pub mod CommandListener
pub mod Containers
pub mod Controller
pub mod FirewallController
pub mod Fwmark
pub mod FwmarkServer
pub mod IdletimerController
pub mod Iptables
pub mod Kernel
pub mod NatController
pub mod Network
pub mod Prefix
pub mod Prelude
pub mod Route
pub mod Tests
pub mod TetherController
pub mod UidRanges
