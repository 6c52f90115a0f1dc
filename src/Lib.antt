-- ===== src/Lib.antt =====
-- Verification of the osu!mania client and its paid play: the link to the signing device, the simulated
-- competition, the play of a beatmap from its file to its score and replay, what the client reads of the
-- competition on Sui, and the service that indexes a leaderboard contract.
--
-- The client talks to a BridgeOS device over WebHID. `Web-Osu-Mania/src/lib/hardware` has three layers:
-- the reports (protocol.ts), one exchange at a time and the methods over it (client.ts), and the React
-- hook that keeps the device's readiness for a paid run (useBridgeHardware.ts).
-- `Web-Osu-Mania/src/lib/dev` simulates a competition: plays are bought into two prize vaults, scores
-- are recorded, prizes claimed, and the vaults paid out and refunded. `Web-Osu-Mania/src/osuMania` is
-- the game: key events reach the input system, which hits and releases the taps and holds of the
-- columns, which judge themselves and tell the score, which tells the health; the game's frames miss
-- what is late and end the game. `Web-Osu-Mania/src/lib/sui` is the client of the competition on Sui.
-- `leaderboard/indexer` follows a leaderboard contract block by block: `sync` finds where the chain and
-- the store part, rolls back, and appends batches; the store replays the events into a view, and a
-- handler of requests serves it in pages.
--
-- Files:
--   Prelude: names of the libraries, Boolean tests (Tests), lists as arrays of bytes and texts
--     (Lists), comparisons and the stable sort (Sorting).
--   Hardware/Protocol: `requestReport` and `ResponseAssembler` of
--     Web-Osu-Mania/src/lib/hardware/protocol.ts. Requests and Reassembly have what a request holds,
--     and how a transfer that is sent in order comes together.
--   Hardware/Hex: `encodeHex` and `decodeHex` of the same file, and RoundTrip.
--   Hardware/Payloads: `parseInfo` and `parseStatus` of the same file, with Info and Status.
--   Hardware/Client: `performExchange` of Web-Osu-Mania/src/lib/hardware/client.ts, its listeners
--     as events. Sending is about what `send` writes, Settling about how the promise settles.
--   Hardware/Session: the methods of `BridgeClient` over an exchange, with Recording and
--     Connection.
--   Hardware/Hook: Web-Osu-Mania/src/lib/hardware/useBridgeHardware.ts, each callback, effect and
--     end of a probe a step. Readiness has the invariant, Generations the histories with the probes
--     in flight.
--   Competition: Web-Osu-Mania/src/lib/dev/competition.ts, its state and the tests of its
--     operations. Operations has launching, buying, playing and the clock, Prizes the rankings,
--     claims, settlement and refunds, Actions the histories. Vaults, Refunds, Funds, Conservation,
--     Settlement and Refunding carry the proofs that Histories puts together; Standings is about the
--     rankings and Bests about recorded scores.
--   Play/Score: `ScoreSystem` of Web-Osu-Mania/src/osuMania/systems/score.ts, with Totals and
--     Perfect.
--   Play/Replay: Web-Osu-Mania/src/lib/replayInputs.ts and
--     Web-Osu-Mania/src/osuMania/systems/replayPlayer.ts, with Recording and Playing.
--   Play/Mods: the packing of mods in Web-Osu-Mania/src/lib/replay.ts, and the multipliers, difficulties
--     and grades of Web-Osu-Mania/src/lib/utils.ts, with Packing.
--   Play/Health: the effect of judgements in Web-Osu-Mania/src/osuMania/systems/health.ts.
--   Play/Game: `Tap` and `Hold` of Web-Osu-Mania/src/osuMania/sprites, the breaks of its countdown.ts
--     and the state of `Game`. Presses is `InputSystem` of
--     Web-Osu-Mania/src/osuMania/systems/input.ts, Loop the frames, pauses and seeks of
--     Web-Osu-Mania/src/osuMania/game.ts with the key handlers, Histories a new game and the events of
--     its life, with the touches of Web-Osu-Mania/src/osuMania/sprites/touchHitboxes.ts.
--     Counted and Kept say what one operation changes, Fits how the columns are passed, Closed and Steps
--     that what each operation keeps holds through every history; Judged and Scores are about judgements
--     and the score, Keys, Endings, Resuming and Judging about keys, endings, the countdown and hit
--     windows.
--   Play/Beatmap: `parseHitObjects` of Web-Osu-Mania/src/lib/beatmapParser.ts, with Timing and
--     Columns; Durations is `getBeatmapDurationMs`; Speeds is `parseTimingPoints`, with Common on the
--     beat length that is the most common; Lines is the metadata, difficulty and breaks, with Values
--     on `getLineValue`.
--   Play/Autoplay: `generateAutoReplay` of Web-Osu-Mania/src/lib/replay.ts.
--   Play/Store: Web-Osu-Mania/src/stores/gameStore.ts, with Results.
--   Sui/Chart: the bytes of `chartHash` in Web-Osu-Mania/src/lib/sui/chart.ts, with Layout.
--   Sui/Forest: `parseOsu` of scoring/gkr-scoring-sui/scripts/forest_charts.mjs. Agreement is about its
--     bytes and those of the client, Lanes about its notes, Published about both.
--   Sui/Rankings: `readRankings` and `readRounds` of Web-Osu-Mania/src/lib/sui/competition.ts, with
--     Best, Firsts, Reading and Rounds.
--   Leaderboard: what the parts of leaderboard/indexer/src share.
--   Leaderboard/Domain: `project` of leaderboard/indexer/src/domain.js. Branches has what each type of
--     event does, Project the loop and the view. Kept and Settled are about the pots of the rounds,
--     Charts and Totals about the charts, Sorted, Recorded, History and Ranked about the
--     rankings and the events that they are made of.
--   Leaderboard/Store: leaderboard/indexer/src/store.js. Linked is about the chain of its blocks, Sound
--     and Keeping about all of its tables and the view, Heights about how far it has come.
--   Leaderboard/Chain: `normalizeLog` and `ChainSource` of leaderboard/indexer/src/chain.js, over a client.
--     Reconcile is `reconcile`, Payments about what it adds up, Agreed about what it finds.
--   Leaderboard/Sync: leaderboard/indexer/src/sync.js. Loops has the loops, Whole `sync`; Safe is about
--     what it keeps, Ends about its loops, Gives and Reaches about where it gets.
--   Leaderboard/Api: leaderboard/indexer/src/api.js, the reading of values. Lists has the pages and the
--     filters, Routes the handler; Walks and Bounded are about the pages and the answers.
--   Hardware/Examples, Hardware/Scenarios, Competition/Examples, Play/Score/Examples,
--     Play/Replay/Examples, Play/Game/Examples, Play/Beatmap/Examples, Play/Store/Examples,
--     Sui/Examples and Leaderboard/Examples: tests and concrete instances.
--
-- Modelling. Numbers are the native naturals, with words of a report taken apart into bytes. A byte
-- array is a list, a string the list of its code units; `subarray` is `slice`, `set` is `write`. A
-- thrown error is a value: `err` in Hardware, `throws` in Competition. An exchange that the methods
-- use, the platform's `open` and the state of the link are parameters, on any state. `send` sees
-- the disconnect signal and the writes, which may fail; its `send_loop` runs on fuel, one round for each byte and one more, which Sending shows to be enough. In the hook, an
-- asynchronous part is cut at its awaits, and any started probe may end at any later step. The
-- diagnostic of an error response is kept as bytes, as TextDecoder is not modelled. Amounts, scores and
-- timestamps are naturals, so the tests that refuse negative or fractional numbers have no case.
--
-- In the score, fractions are kept exact by scaling; `Math.sqrt` and the health system are parameters.
-- In the replay and in the parser, times are of any type with a total order; in the game they are
-- naturals in any unit. The game's song is a parameter of each event, the time that it is at, and what
-- it is told is a list of commands; the position at which a hit object is drawn is a test of the time
-- and the hit object. The score in the game is an interface, `Scoring`, with the laws `Counting`
-- of what it counts and keeps; Play/Game/Scores fills it with the score system. The lists that the loops over the game's columns read have the mutable `broken` of
-- their start, which the loops do not read. The readers of events on Sui run on fuel, a page each, which
-- Reading and Rounds show to be enough where the pages end.
--
-- In the leaderboard service, the events of the contract are in the form that chain.js gives them, the
-- decimal strings as their numbers; the source of the chain is a parameter with a state, whose answers
-- may change at any call, as those of a chain that is reorganised do. So may the reads of the contract;
-- Agreed relies on it that those of one block that succeed give what the contract holds there. The store is the rows of its
-- tables. The loops of `sync` run on fuel; Ends shows that fuel for the stored blocks and for the safe
-- integers is enough. The number after `afterBlock` and after the target stand for these, which may be
-- -1. A request has the parts and the values that the platform has split and decoded.
--
-- Not modelled: replay files, the search for the drain rate of health, video and highest BPM of
-- beatmaps, what the game does after its end, transactions and objects on Sui, the other stores,
-- rendering and sound, the server routes, the contract of the leaderboard and the decoding of its logs,
-- the scoring crates and scripts and the software of the device. They are drawing, calls of services and libraries, or later candidates.
pub mod Prelude
pub mod Hardware
pub mod Competition
pub mod Play
pub mod Sui
pub mod Leaderboard
