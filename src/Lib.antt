-- ===== src/Lib.antt =====
-- Source2Root, a framework that runs SourcePawn scripts in a Source 2 game server.
--
-- The parts modelled are those that decide for themselves. Scripts and extensions name their
-- resources by handles (src/handles.h). Administrators, their groups and their identities are read
-- from files (src/keyvalues.cpp, src/identity.cpp, src/permissions.cpp), and say who may act on
-- whom. Core settings are read from source2root.cfg and set by console variables (src/config.cpp).
-- Commands come as one text, whose arguments scripts ask for (src/text.cpp). Menus turn buttons into
-- inputs and a selection into a page (src/menu.cpp). The voice control withholds one player's voice
-- from the others, and restores what was asked for (src/voice.cpp). Extensions give slow work to
-- threads, and complete it on the server's own (include/source2root/work_queue.hpp). Of the
-- extensions, one keeps the players' preferences, cached over a database (extensions/clientprefs),
-- and one the menus that plugins share (extensions/topmenus).
--
-- Files, and the code they follow, by the source's names in the spelling used here:
--   Base         what the others share: lists and numbers, exceptions as Result, texts as lists of
--                bytes with std::from_chars and std::to_string, maps as association lists
--   Handles      Handles: Add, Get, Contains, Remove, Owned, Retire, Count (src/handles.h)
--   Identity     ParseSteamIdentity, ValidIdentifier, ValidPermission (src/identity.cpp)
--   KeyValues    Parser and ReadKeyValues (src/keyvalues.cpp)
--   Player       Player (src/identity.h)
--   Permissions  Permissions: Load, Find, Immunity, Allows, CanTarget, CanTargetIdentity
--                (src/permissions.cpp)
--   Config       CoreSettings: Value, Set, SetAll, Read, ParseLine (src/config.cpp)
--   Menu         MenuControls and Menu: Read, Input, Escape, Html (src/menu.cpp)
--   WorkQueue    WorkQueue: Submit, Run, Dispatch, Stop (include/source2root/work_queue.hpp)
--   Voice        Voice: Set, Filter, Release, Refresh, Suspend, Resume, Disconnected (src/voice.cpp)
--   Preferences  clientprefs: Service with its accounts, its catalog of cookies, its queue and its
--                worker, over an interface Storage (extensions/clientprefs/service.cpp), and what
--                store.cpp checks
--   TopMenu      topmenus: Menu, its objects and pages (extensions/topmenus/catalog.cpp)
--   Bans         Utc, ParseUtc and BanStore, its memory and its file (src/bans.cpp)
--   Arguments    ParseArguments, GetArgument, GetRemainingArguments, ParseInt (src/text.cpp)
--
-- State is passed and returned. An exception is the value err; the state that it leaves is the one
-- given, but where a function says otherwise. A std::map is an association list in the order of
-- insertion, so that the order of keys is not modelled. In the source it decides what comes first: the
-- order of writes to the game and to a file, which error is told, and which accounts get room where a
-- queue is short. An unsigned number is a natural number, with the wrap-around written
-- out where the code shifts.
--
-- Loops over a text that do not follow it byte by byte have a number of rounds, and a failure of
-- their own where these do not suffice. KeyValues spends a round on each entry and level and has one
-- for each byte; ParseLine has three, since the third word throws; ParseArguments 33, since the 33rd
-- argument throws. That they are enough is among the results. Apply of the voice control counts to
-- 128 in the source, too.
--
-- The work queue is a relation between states: a step is one section under the mutex, or one call
-- between two, and steps of the threads follow one another in any order. Work and completions are
-- what they answer. The game behind the voice control is a parameter, a record of the calls made:
-- those that ask are taken not to change it, and SetListening to change nothing of the voice
-- control, whose Filter answers at once while a write is under way.
--
-- The preferences' worker and the owner take turns: a step is one operation of the owner or one
-- task of the worker, in any order. The worker reads only what its tasks have captured and the
-- storage, so that tasks under way are no different. The storage is an interface with laws; a save
-- that throws is taken to have stored nothing, which transactions provide. Nothing else writes to
-- it. The shared menus' permission callback is a parameter.
--
-- The ban store's operations get what the file system will answer. Its JSON library is a parameter, a
-- record of reading and writing with the laws that a written text is read back. The turns of the loops
-- over years and months are enough: a year has 365 days at least, a year 12 months. AtomicWrite
-- is its POSIX branch, one answer of the system for each call; the answers to `write` are a list, and
-- where it ends the next write fails. The Windows branch is left out, Read's calls are one answer, and
-- the machine does not stop in the middle of a call.
--
-- Not modelled: the file system (a file is its bytes, or what the system answered), the bindings to
-- the script machine and to the host (src/foundation.cpp, src/runtime.cpp, src/module.cpp), activity,
-- communications and formatted text (src/activity.cpp, src/communications.cpp, src/format.cpp), the
-- SQL of the stores behind the preferences, the bindings of the two extensions modelled, and the
-- other extensions, which mostly call the game or other libraries.
pub mod Base
pub mod Handles
pub mod Identity
pub mod KeyValues
pub mod Player
pub mod Preferences
pub mod Permissions
pub mod Config
pub mod Menu
pub mod WorkQueue
pub mod TopMenu
pub mod Bans
pub mod Voice
pub mod Arguments
