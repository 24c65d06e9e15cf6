-- ===== src/Lib.antt =====
-- Warp Router: a router built from Debian services. The program `warp` (cmd/warp/main.go) reads a
-- site configuration, validates it, renders the configuration files of FRR, Kea, nftables,
-- Unbound and sysctl, applies them, keeps revisions, and monitors the WAN uplinks: a prober pings
-- each uplink's gateway, a failover controller turns its status changes into changes of the
-- default routes, and a route manager gives these to FRR through vtysh.
--
-- The parts and their files:
-- + Prelude: equality, Booleans, lists, association lists for Go maps, Go's int, and texts,
--   shared by all.
-- + Config: the types of internal/config/config.go; Config/Load is LoadFile and Parse, with the
--   decoding of YAML a parameter. Config/Validate is Validate of internal/config/validate.go,
--   with the interfaces (and the overlaps) in Config/Validate/Interfaces and DHCP, DNS, firewall
--   and PBR in Config/Validate/Services; Config/Errors has an error value for each message,
--   without its text. Config/Valid says which configurations are valid, without
--   the helpers of the validator.
-- + Net: package net, as far as it is used. IPNet.Contains and IP.To4 are written out on byte
--   lists; the functions that read and print texts are the record Net, a parameter.
-- + Health: internal/health/probe.go. Status, UplinkState and ProbeConfig are in Health/Status;
--   Health/Prober has the registration of Start, the defaults of probeLoop, and doPing as a step
--   on the map of states, which takes the time and the ping's result as arguments and gives the
--   callback that it makes. Health/StatusFile is the report of internal/health/status.go, written
--   and read. Health/History, Health/Counters and Health/Callbacks are about sequences of such
--   steps.
-- + Failover: internal/failover. Failover/Routes has Nexthop, PBRRule and the interface
--   RouteManager, a record of operations over a state; Failover/Vtysh is VtyshRouteManager
--   (vtysh.go) with ReplaceECMPRoute, AddPBRRule, DelPBRRule, InstalledRoutes; Failover/Netlink
--   is NetlinkRouteManager (netlink.go), with the library netlink a parameter;
--   Failover/Controller is Controller (controller.go) with NewController, HandleStateChange,
--   InstallInitialRoutes, deactivateUplink, activateUplink, updateECMP and ActiveUplinks, over
--   any RouteManager.
-- + Cli: cmd/warp/main.go. Cli/Commands has main's choice of a command, cmdValidate, cmdApply,
--   cmdRollback, cmdRevisions and cmdStatus, each with its end as a value, over a record Env of
--   what they run on; Cli/Commands/Pipeline, Load, Apply and Rollback are about them. Cli/Monitor
--   is the loop of cmdMonitor that builds the probes and the initial routes; Cli/Monitor/Initial
--   puts it together with NewVtyshRouteManager and NewController. Cli/Monitor/Loop is cmdMonitor
--   while it runs: a step relation on the prober's states, the controller, the manager and the
--   changes that are recorded and not yet reported, since a goroutine reports after it has
--   released the prober's mutex.
-- + Services: the Render functions of internal/services: Services/Frr, Services/Nftables,
--   Services/Kea, Services/Unbound and Services/SysctlConf, with the templates as functions from
--   the data to the text (Services/Frr/Template, Services/Nftables/Template). Services/Frr/Lines
--   reads the default routes back from a text by its lines; Services/Frr/Pieces, Blocks,
--   Printable and Routes are about those of frr.conf.
-- + Os: packages os and os/exec, as far as the program uses them: files as texts by path, and a
--   log of the calls with the files after each. Which calls succeed, what commands print, the
--   names of temporary files and what a failed write leaves are a record Machine, a parameter;
--   Os/Quiet and Os/Frame have the laws of the calls.
-- + Apply: internal/apply/apply.go. Apply is atomicWrite, backupFile and restoreBackups;
--   Apply/Vlans is ProvisionVLANs with listVLANSubinterfaces and ParentDevice, and
--   Apply/Vlans/Spares, Parent and Quiet are about what it deletes, what ParentDevice gives, and
--   the files; Apply/Pipeline is Step, Result, NewPipeline, applySysctl and Execute with the
--   SystemdReloader. Apply/Atomic, Apply/Backups, Apply/BackUp, Apply/Steps and Apply/Execute are
--   about what they do to the files; Apply/Lock is AcquireLock; Apply/NewPipeline shows that the
--   paths of NewPipeline's steps are apart.
-- + Revision: internal/revision/store.go. Revision has Metadata, the store's directory (entries
--   by name: directories of files, links, other files) and the calls on it; Revision/Id has
--   validRevisionID and the identifiers that Save tries; Revision/Store has Save, List, Get,
--   Current and Previous. A record Disk, a parameter, says which calls of one operation succeed;
--   the record Lib has the functions of the standard library. Revision/Search is about the search
--   for an identifier, Revision/Save about what Save leaves alone, Revision/RoundTrip about
--   reading what was saved, Revision/IdForm and Revision/Refuses about the identifiers.
--
-- How state is modelled: a method takes the state and returns the new one with its result, and
-- the mutex of its object makes it one step. A Go map is an association list with each key once,
-- read by `lookup` and `has`; a missing key is what the code makes of it. The order in which
-- `range` visits a map is a parameter, a function that finds every entry once (IsRange). What
-- vtysh answers is a parameter too, a function of the commands so far, so that each command may
-- be refused. A Go int is the integer type of Prelude/Int, which wraps at 64 bits where the code
-- adds to it. Loops are recursions over the list they range over. Fuel has the printing of a
-- number, for twenty digits, as a 64-bit number has no more; and Save's search for an identifier,
-- which has no bound in the program: a try more than there are entries is enough, as the
-- identifiers that it tries differ.
--
-- Not modelled: what other processes do with the lock of internal/apply, the effect of its ip
-- commands on the kernel's links, sending an ICMP packet, timers, the cancelling of goroutines,
-- writing JSON for Kea (encoding/json's), the packaging, and the integration tests' environment
-- under test. Texts that are only logged or printed are left out.
pub mod Prelude
pub mod Config
pub mod Net
pub mod Os
pub mod Revision
pub mod Apply
pub mod Health
pub mod Failover
pub mod Cli
pub mod Services
pub mod Tests
