-- ===== src/Lib.antt =====
-- A model of mcproxy, a proxy for IGMP and MLD memberships (RFC 4605), and of what its parts promise.
--
-- The program. A proxy instance has downstream interfaces, each with a querier that keeps the
-- membership database of that interface, and upstream interfaces, on which it acts as a host. Receivers
-- turn packets into group records and sources; the records go to a querier, whose timers come back as
-- messages; when a group changes, the querier tells the routing, which asks all queriers what they want,
-- gathers the answers into one record per upstream interface and sends it. The routing also keeps the
-- table of the sources that are heard and sets the kernel's routes.
--
-- What models what.
--   SourceList: `source_list<T>` and its operators (mcproxy/include/proxy/def.hpp).
--   Protocol: filter modes, protocol versions, record types (mcproxy/src/proxy/def.cpp).
--   TimersValues, ResponseCode: the protocol's values, and the codes in which packets carry durations
--     (mcproxy/src/proxy/timers_values.cpp).
--   Message, Membership: timer messages, sources, group records, the membership database
--     (mcproxy/include/proxy/message_format.hpp, mcproxy/src/proxy/membership_db.cpp).
--   World: the clock, the heap of timer messages and the calls that a querier makes of other parts.
--   Sender: what the senders decide (mcproxy/src/proxy/igmp_sender.cpp, mcproxy/src/proxy/mld_sender.cpp).
--   Querier: the handlers of records and timers (mcproxy/src/proxy/querier.cpp). Its children Actions,
--     Records, Expiry and Forward are the code; Table has the router state tables of the RFCs, Invariant
--     what is a valid entry; IncludeTable, ExcludeTable, IncludeValid and ExcludeValid compare the code
--     with them, and Received, Reports, Elapsed and TimerEvents carry this to the whole database,
--     Traces to sequences of messages, Start is the constructor, and Retransmission follows the queries for a group.
--   Aggregation: `interface_memberships` (mcproxy/src/proxy/simple_mc_proxy_routing.cpp). First is about the
--     rule type first; Mutex is the code for the rule type mutex, and Counts and Single are about it.
--   Forwarding: which interfaces a source is forwarded to and the routes that are set
--     (mcproxy/src/proxy/simple_mc_proxy_routing.cpp); its child Loops is on the input interface.
--   RoutingEvents: the handlers of the routing's events (the same file); Records is about what they send.
--   RoutingData: the table of sources (mcproxy/src/proxy/simple_routing_data.cpp).
--   Timing: the reminders (mcproxy/src/proxy/timing.cpp).
--   MessageQueue: the queue of a worker (mcproxy/include/proxy/message_queue.hpp).
--   Buffer: bytes in memory and numbers in network byte order; Written has the inverse.
--   Receiver: from packets to messages (mcproxy/src/proxy/receiver.cpp, mcproxy/src/proxy/igmp_receiver.cpp,
--     mcproxy/src/proxy/mld_receiver.cpp). Igmp and Mld are the code; Report and Packets read back what
--     the RFCs describe, Registered is about the messages, Overrun about reads outside of the buffer.
--   VirtualInterfaces: the virtual numbers of interfaces (mcproxy/src/proxy/interfaces.cpp). Free and
--     Consistent are about its two maps.
--   ProxyInstance: the interfaces of an instance and the messages that configure it
--     (mcproxy/src/proxy/proxy_instance.cpp). Registered, UpstreamMsgs, DownstreamMsgs and Registration
--     follow which interfaces are registered, and Forwarded is what the routing sees of an instance.
--   ProxyStart: the messages that `start_proxy_instances` sends (mcproxy/src/proxy/proxy.cpp). Setup, Steps,
--     Started, Reordered and Messages follow what they make of a new instance, in whatever order the queue
--     of the worker gives them.
--   Worker: the dispatch of an instance's messages to its configuration, its queriers and its routing
--     (mcproxy/src/proxy/proxy_instance.cpp). Callbacks, Configs, Results and Valid follow the
--     queriers' databases.
--   Text: `std::string`.
--   Addr: addresses of both families, their comparison, increments and masks
--     (mcproxy/src/utils/addr_storage.cpp). Value, Order, Steps and Subnet compare them with numbers, Bits
--     has what they need of masks.
--   Rules: tables of rules and their matching; Interface: filters, interfaces and instances
--     (mcproxy/src/parser/interface.cpp). Rules.Finite and Rules.Passes follow the references of tables,
--     and Interface.Filters says what a filter lets pass.
--   Ending: how a call of the configuration's code ends.
--   Token, Scanner: from a command to its tokens (mcproxy/src/parser/scanner.cpp). Progress and Printed are
--     about its end and its inverse.
--   Parser: the parser of commands (mcproxy/src/parser/parser.cpp): Numbers, Parts, Tables, Instances and
--     Bindings are the code; PartsEnd, TablesEnd and TableTotal are about its end, Prefixes about prefix
--     lengths; Grammar says which tables can be written, and Accepts, Written and AcceptsTables compare
--     the parser with it.
--   Configuration: from the text of the file to tables and instances
--     (mcproxy/src/parser/configuration.cpp). Growing, Instances, Bindings and Closed follow the references
--     through all commands, Comments is about comments.
--   MapOf stands for `std::map`, Base has what all modules share, Tests concrete inputs.
--
-- How state and operations correspond. A method becomes a function of the same name from the old state to
-- the new one; the calls that it makes of timers, sockets and callbacks are listed, newest first, in
-- `World.actions`. A shared pointer to a timer message is an Option of the message with the number under
-- which it was allocated, so that two pointers are equal when their numbers are. A read through a null
-- pointer gives `none`. An address is its number, since all addresses of an instance are of one family.
-- Counters of type int and long are integers; the milliseconds of clocks are natural numbers without
-- bound; the codes of durations keep their width. In the proxy the loops recur on the list that they walk,
-- and those of ResponseCode on the number of bit positions that are left. In the configuration an address
-- has its family and its words, a text its bytes, and a call returns, throws, calls `std::terminate` or
-- has undefined behaviour. In the receivers `none` is a read outside of the buffer. Fuel stands for what
-- has no bound in the text of a loop: one for each character and the end in the scanner, since each token
-- takes a character; one for each token and the end in `parse_table`, both for tables inside tables and for the rules of a table, since each takes a
-- token; and one for each table in the matching of references, since tables refer only to older ones.
--
-- What is taken as given. The kernel's packet count of a route is a parameter of RoutingData, and the
-- answer of a socket one of Sender, `inet_pton` one of Parser, and the index of a virtual interface one of
-- Forwarding and RoutingEvents; the limits of the kernel's tables are parameters of VirtualInterfaces, and
-- the system's names and indexes of interfaces those of ProxyStart. The filters of the interfaces are
-- functions in Aggregation and Forwarding. Whether a timer message is still shared when it comes back (`unique`) is an input of `timer_triggerd`, since the
-- timing module may hold a pointer too.
--
-- What is not modelled. Sockets, the properties of the kernel's interfaces, logging and the main program
-- only do input and output; so do the senders' bytes. The structures of the system at the start of a packet
-- are given as what they read. The functions that make strings, reading the file of the configuration and
-- looking up its interfaces in the system, threads, messages that carry a test, and the setters of the
-- protocol's values are not modelled. `querier::filter_time` is never called.
pub mod Base
pub mod SourceList
pub mod MapOf
pub mod Text
pub mod Addr
pub mod Forwarding
pub mod Buffer
pub mod Receiver
pub mod VirtualInterfaces
pub mod Worker
pub mod ProxyInstance
pub mod ProxyStart
pub mod RoutingEvents
pub mod Configuration
pub mod Parser
pub mod Scanner
pub mod Token
pub mod Ending
pub mod Interface
pub mod Rules
pub mod Protocol
pub mod TimersValues
pub mod ResponseCode
pub mod Message
pub mod Membership
pub mod World
pub mod Sender
pub mod Querier
pub mod Aggregation
pub mod RoutingData
pub mod Timing
pub mod MessageQueue
mod Tests
