-- ===== src/Lib.antt =====
-- Hexplus is a Go program that runs a VPN server's services: an OpenVPN installation with its session
-- guard, an SSLH multiplexer and an SSL tunnel on shared ports, a payload proxy, and a web panel for
-- Xray clients. This library models the parts of it that decide: which sessions end, where a connection
-- goes, who may log in, what an account or a service's configuration becomes, which cap and which
-- share of the traffic each gets.
--
-- The parts, from the repository's root:
--   Ovpnguard     internal/ovpnguard, the session guard. `Decide` (decide.go) is the pure decision,
--                 `Status` reads the `status 2` rows, `Activity` (run.go, `mark`) remembers which
--                 sessions are silent over the passes, `Accounts` (run.go, `loadPolicy`, `refusal`)
--                 builds the policy from the account files, `Management` (mgmt.go and the passes of
--                 run.go) talks to OpenVPN, and `Conf` (conf.go) edits the server configurations. A
--                 pass opens the connections, reads the sessions, marks the silent ones, decides and
--                 sends the kills: `enforce`.
--   Sslhmux       internal/sslhmux: `classify` and `handle_mux_conn` (sslhmux.go), the live backends
--                 of `Detect` (detect.go) and the addresses they use. Its failures go through
--   Connlog       internal/connlog, the throttled log, and its listener runs in
--   Acceptloop    internal/acceptloop, the accept loop with its backoff.
--   Ovpninstance  internal/ovpninstance: the registry of extra OpenVPN instances (ovpninstance.go) and,
--                 in `Nat`, the MASQUERADE rule of their subnets (nat.go).
--   Portclaim     internal/portclaim: which service listens on which port, the instances included.
--   Firewall      internal/firewall: the INPUT rules of the services' ports and their lines in
--                 rc.local (input.go, rclocal.go), where `close_port` asks Portclaim whether another
--                 service still listens, in `Forward` the rules of the FORWARD chain
--                 (forward.go), and in `Persisted` what an uninstall finds and removes.
--   Panel         internal/panel: `Security` (security.go), the login rate limit and the CSRF check,
--                 `Auth` (auth.go), sessions and login, which use the rate limit, `Rows` (db/
--                 migrations.go), the tables of inbounds and clients, `Clients` (api_clients.go,
--                 api_client_ops.go), the requests that change clients, one or many, and
--                 `Enforcer` (enforcer.go), the sweep over the clients; `Clients.Requests` has the
--                 requests and the sweeps as the steps of one history.
--   Speedlimit    internal/speedlimit (speedlimit.go): the caps in their file, and the hooks in the
--                 server configurations; `Refinement` takes the file for a table of caps.
--   Ovpnspread    internal/ovpnspread: the rules that spread the connections, the ports of the
--                 workers, the drop-in (dropin.go), and their caps, which go through Speedlimit;
--                 `Apply` puts the rules into the chains of an iptables that is a parameter.
--   Proxy         internal/proxy: the settings (config.go) and one connection of the payload proxy
--                 (handler.go), up to the bridge; its allowlist is that of the local addresses.
--   Pki           internal/pki: the texts of the server, instance and client configurations
--                 (serverconf.go, clientconf.go), and the endpoint read back from one.
--   User          internal/user: the accounts (user.go) with their database and the system's
--                 accounts in `Store` (db.go, system.go), and the client file in `Export` (ovpn.go),
--                 whose endpoint comes from Pki's server configuration.
--   Xray          internal/xray. `Generate` (generate.go) makes the configuration of `Config`
--                 (config.go) from the panel's tables, with `Transport` (transport.go) for the
--                 stream of an inbound and `Settings` (the files proto_*.go) for what a protocol
--                 accepts; it reads the flag of a client that the panel's requests and the
--                 enforcer write. `Stats` (stats.go) has the traffic counters, and `Stats.Fair`
--                 puts xray's counters, the panel's memory of them and the tables into one world
--                 with traffic, restarts and polls as its steps.
--   Text, Maps    what these use of Go's strings, strconv and maps; Base, the shared helpers.
--   Tests         the theorems at concrete data.
--
-- How the state corresponds. A string is the list of its code points. A Go map is an association list:
-- the code never shows its order. `sort.Slice` is an insertion sort, which differs from Go's only on
-- sessions that agree in every key of the comparison. Files, sockets, clocks, random draws and
-- database rows come in as arguments and go out as results, and so does which write, command or
-- transaction succeeds; a method under a mutex is one step, and so is a request to the panel. The
-- digest of cookies, bcrypt's comparison, the parser of IP addresses, the certificates, the decoder of
-- JSON and the commands of iptables are parameters, since they are libraries or other programs. Times
-- are natural numbers, in nanoseconds in the accept loop and for accounts and in seconds elsewhere,
-- but the expiry of a client is an integer.
--
-- Bounds and fuel. Integers keep the range that the code checks: a parsed `uint64` or `int64` out of
-- range is an error of `Text.Number`, and the extension of a client's expiry wraps around as an
-- `int64`. `status_loop` runs on fuel, one round more than there are lines to read, which is enough
-- since each round takes a line. Printing a number has one round more than the number, and each round
-- divides it by ten. The search for a free instance ID has one round more than there are instances,
-- and ends. `remove_input` and `delete_masquerade` delete 32 copies of a rule at most, as the code
-- does.
--
-- Not modelled: the menus, the installer, the command line and the services' process control, which
-- are I/O; starting and stopping the workers of the spreading, the share links and keys of Xray and
-- the control of its process, certificates and password hashes, the copying of the proxy's bytes, and
-- the panel's handlers of inbounds, routing, subscriptions and backups; most databases and files that
-- fail half way. Of the tables, `node_id` and `flow` are left out, which the handlers leave at their
-- defaults.
pub mod Base
pub mod Text
pub mod Maps
pub mod Ovpnguard
pub mod Ovpninstance
pub mod Portclaim
pub mod Firewall
pub mod Sslhmux
pub mod Connlog
pub mod Acceptloop
pub mod Speedlimit
pub mod Proxy
pub mod Pki
pub mod User
pub mod Xray
pub mod Ovpnspread
pub mod Panel
pub mod Tests
