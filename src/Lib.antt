-- ===== src/Lib.antt =====
-- NVMe-DPDK-PCAPReplay: a raid of NVMe drives with a small file system on it, which keeps network
-- captures and is to replay them. The tools (src/cp, src/rm, src/ls, src/format, src/replay) share
-- src/main.c, which finds the drives, and three parts: src/fs.c keeps a table of files in the first
-- sector of each drive and maps the blocks of the raid to blocks of the drives; src/simpleio.c hands
-- commands to the drives through SPDK; src/spcap.c buffers a capture file on its way to the raid.
--
-- How the files correspond to the code:
--   Prelude   what the files share: tests, lists, and how a piece of the program ends
--   Layout    include/fs.h: the constants, and MetaFile, MetaSector, Idisk and NvmeRaid for metaFile,
--             metaSector, idisk and nvmeRaid. Of the array `disk` the first `numdisks` are in use.
--   Stripe    src/fs.c: super_getid, super_getdisk, super_getdisklba
--   Table     src/fs.c: what initMeta, findFile, rightFreeBlock, blocksLeft, addFile and delFile do to
--             the tables. add_entry and del_entry are addFile and delFile up to updateRaid.
--   Driver    SPDK, which is not in the repository: a record of functions of the calls made so far.
--             The state Sio is that history and the two task counters; code that calls the driver
--             takes a Sio to an Outcome (it returns, exits, waits for ever, or overruns an object).
--   Simpleio  src/simpleio.c: sio_read, sio_write and their pinned forms on one drive
--   Transfer  src/simpleio.c: sio_rread, sio_rwrite and sio_waittasks on the raid. The two transfers
--             differ in the command alone and are one function of a direction.
--   Store     the bytes of the memory and of the drives after a history of calls: every command that
--             the driver takes moves its blocks when it is taken, and a copy its bytes
--   Pinned    src/simpleio.c: sio_rread_pinit, sio_rwrite_pinit
--   Fs        src/fs.c: createRaid, formatRaid, updateRaid, addFile and delFile with their writes
--   Spcap     src/spcap.c
--   Start     src/main.c: register_ns, attach_cb, probe_cb and main, which is given a tool as a record
--   Tools     src/rm/rm.c: app_run; Cp is src/cp/cp.c, with the files of the system as a record; Ls is
--             what src/ls/ls.c lists, and app_init of src/format/format.c. Options is app_config of
--             rm, ls and format, and Programs the tools as main is linked with them.
--   Replay    src/replay/config.c and replay.h: the arguments of the replay program, and what its
--             initialisation asks of the configuration. Nic is DPDK's network side, a record of
--             functions of the calls so far; Init is init.c, Lcores the loop of runtime.c as a
--             machine of all lcores, whose turns come in any order, as app_run of replay.c starts it,
--             Report what replay_print_params says of the configuration, and Tool the rest of replay.c
--   Tests     the theorems at concrete inputs
--
-- Numbers are natural numbers, with the wrap-around of uint64_t, uint32_t and uint8_t written out
-- where the code computes in them. Where the model counts rounds: sio_rread and sio_rwrite are nested
-- at most three deep; the loop over super sectors takes at most one round more than the transfer has
-- blocks, the loop over the ports one more than there are ports, writeBuff at most one call more than
-- it has bytes, and the loop over tuples one round more than the argument has characters. A loop that
-- polls the driver is followed for as many rounds as the driver's field `patience` says and is taken to
-- wait for ever after that, so that theorems which say that such code returns have a hypothesis on the
-- driver: `Works`, that the command of a waiting call is reported (Simpleio/Sync), or `Reports`, that
-- every task is (Transfer/Tasks). `Remembers` says that a table is read as it was written (Fs/Reads).
--
-- Where the code reads or writes outside of an object, C does not say what follows, and the model's run
-- ends as `overruns`: the copies of src/simpleio.c to and from a metadata sector when the sectors have
-- another size, and those of src/spcap.c past a buffer or a packet. The machine of the lcores stops when
-- one of them counts past the 16 entries of mbuf_out. What ls prints of a name goes on to the first 0 in
-- the table.
--
-- A failed argument ends the replay program (src/replay/config.c returns a negative number up to its
-- caller), so what it has written to `replay` by then is left out. Not modelled: the zeroes of
-- spdk_zmalloc, and all output but the list of ls and the parameters that replay prints. SPDK, DPDK,
-- libpcap and getopt_long are parameters. A driver is working when it `Works` (Simpleio/Sync), with
-- sectors of 512 bytes. A raid is "in order" when it is `IsValid` (Table/Invariant), a
-- configuration when it is `IsConfig` (Replay/Args/Queues), the drives have different handles when they
-- are `Distinct` (Store/Places), the counters are right when they are `Counted` (Transfer/Tasks), and a
-- driver takes every command when it `Accepts` (Transfer/Steps) and pins no memory of a payload when it
-- `Spares` it (Pinned/RoundTrip). NVMes make a raid when they are `CanHold` (Tools/Programs/Found), and
-- hold its tables when they are `KeptOn`; a raid is as SPDK finds it when it is `CanFormat` (Fs/Kept).
pub mod Prelude
pub mod Layout
pub mod Stripe
pub mod Table
pub mod Driver
pub mod Simpleio
pub mod Transfer
pub mod Store
pub mod Pinned
pub mod Fs
pub mod Start
pub mod Spcap
pub mod Tools
pub mod Replay
pub mod Tests
