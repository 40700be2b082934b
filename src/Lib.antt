-- ===== src/Lib.antt =====
-- SoundScape Renderer: the configuration, the Scene, the renderer's sources, the network subscriber,
-- scene files, connections and their server, the Controller, reproduction setups, panning between
-- loudspeakers, and the audio player.
--
-- The Controller (src/controller.h) owns a Scene and a renderer. Whoever wants a change (the network
-- server, the GUI, the tracker, the renderer itself) calls a function of the Publisher interface,
-- which the Controller implements; it answers by calling one function of the Subscriber interface on
-- every subscriber, in the order of subscription. The Scene comes first and records the state, the
-- RenderSubscriber comes second and hands the change to the renderer, and a NetworkSubscriber turns
-- it into an XML message for its client. What the clients see is right as long as the Scene and the
-- renderer do not drift apart, and this is the main subject here.
--
-- Files:
--   Common       the names that all files share: Boolean tests on numbers, byte strings (Text), and
--                association lists sorted by key, the model of std::map (Assoc).
--   Geometry     src/position.h, src/orientation.h, src/directionalpoint.h, src/loudspeaker.h;
--                Geometry/Points has the operators of src/position.cpp, src/orientation.cpp and
--                src/directionalpoint.cpp.
--   Source       src/source.h: the data of a source; a model printed and read (Source/Models).
--   Subscriber   src/subscriber.h: a call of a virtual function is a value of Event.
--   Publisher    src/publisher.h: a call of a virtual function is a value of Call.
--   Scene        src/scene.h, src/scene.cpp, src/maptools.h; Scene/Lookup has the specification of
--                one source, Scene/Members and Scene/Getters are about the getters.
--   Renderer     src/rendererbase.h, src/rendersubscriber.h: ids, the list and the map of sources,
--                their inputs, and the members that the subscriber assigns to. Renderer/Ascending
--                has lemmas on sorted maps, Renderer/Sources the invariant of inputs, list and map,
--                Renderer/Lookup the specification of one source.
--   Network      src/boostnetwork/networksubscriber.cpp: the messages and the table of levels;
--                Network/Messages is about the transport state.
--   CommandParser  src/boostnetwork/commandparser.cpp: the calls that a request of a network client
--                leads to. CommandParser/Elements has the elements and parse_cmd(),
--                CommandParser/Requests is about <source> elements, CommandParser/Updates about
--                requests of such elements, CommandParser/Examples has small requests.
--   PathTools    src/posixpathtools.h: paths and lists of components. PathTools/Tokens is on
--                splitting, PathTools/Cleaning on clean_path() in a tree of directories,
--                PathTools/Meeting and PathTools/Relative on make_relative(), PathTools/FileNames
--                on extensions and white space, PathTools/Returning on assertions, and
--                PathTools/Examples has small paths.
--   SceneFile    src/controller.h, namespace internal, and the <source> and <reference> elements
--                that load_scene() reads, with src/xmlparser.h for the nodes of a document.
--   Controller   src/controller.h: subscribers, publication, and the functions of Publisher.
--                Controller/Sync relates a Scene to a renderer, Controller/Publish a publication to
--                both, Controller/Register is about new_source(), Controller/Upkeep about other
--                single functions, Controller/Total about the end of a publication,
--                Controller/Standing about operations that return, Controller/Faults about the call that
--                fails, Controller/Subscribers about the list of subscribers. Controller/Calls has
--                the functions of the Publisher interface, and Controller/Operations is about any
--                sequence of them. Controller/Examples applies
--                the theorems to the small Controller of Controller/Sample.
--   Controller/Loading  load_scene() and _create_spontaneous_scene(). Loading/Sources and
--                Loading/Returning are on its end, Loading/Keeping on what loading leaves
--                alone, Loading/Agreement and Loading/Aiming on Scene and renderer, Loading/Telling and
--                Loading/Distance on the amplitude reference distance, Loading/Examples on the
--                small scene file of Loading/Sample.
--   Controller/Saving  get_scene_as_XML() and save_scene_as_XML(). Saving/Returning is on their
--                end, Saving/Leaves and Saving/Reloading on reading again what was written,
--                Saving/Examples on a small source.
--   Controller/Startup  the constructor, run() and the destructor. Startup/Beginning and
--                Startup/Returning are about what the constructor leaves behind and how it ends,
--                Startup/Unaimed about a start without a scene, Startup/Console about the console,
--                Startup/Examples has two small programs.
--   Controller/Query  query_state. Query/Changes is on what may happen to the sources between query()
--                and update(), Query/Levels on the levels, Query/Reuse on a new source
--                at an old address, Query/Examples on small ones.
--   Configuration  src/configuration.h, src/configuration.cpp. Configuration/Files has the lines and keys
--                of a configuration file; Files/Lines and Files/Loading are on single lines, Files/Whole
--                on whole files. Configuration/Options has the defaults and the command line,
--                Options/Choices is on what a command line chooses. Both have Examples.
--   Loudspeakers  src/loudspeakerrenderer.h: what a reproduction setup is read from and how an output is
--                added. Loudspeakers/Elements has its elements, Loudspeakers/Ports and Numbering are on the
--                channels that they take, Loudspeakers/Setups on whole setups, Loudspeakers/Examples on
--                a small one.
--   Vbap         src/vbaprenderer.h: the two loudspeakers of a source and their weights.
--                Vbap/Between and Neighbours are on the choice, Vbap/Selecting on the assertion of select(),
--                Vbap/Examples has three loudspeakers.
--   AudioPlayer  src/audioplayer.cpp, src/audioplayer.h: the open sound files and their ports.
--                AudioPlayer/Names is on the names of JACK clients, AudioPlayer/Files on requests,
--                AudioPlayer/Examples has one file.
--   Connection   src/boostnetwork/connection.cpp: the buffer, the handlers and the timer of a client's
--                connection, as steps. Connection/Framing is about packets, Connection/Running about
--                any sequence of steps, Connection/Lifetime about a client that leaves, and
--                Connection/Examples has a small client.
--   Server       src/boostnetwork/server.cpp: the server that accepts clients, as turns of its handlers.
--                Server/Readiness and Server/Accepting are about a server without errors,
--                Server/Refusing about one after an error, Server/Agreement about the program with all
--                its clients, for which Connection/Agreement has the steps of one connection.
--                Server/Examples has a server that starts.
--
-- Conventions. A float is a value of a parameter type, and the operations on floats and the text
-- that the C++ library prints for a number are the records Floats and Printer. Ids, lengths and
-- sample rates are natural numbers; the program counts ids up from 1 in an int, and an overflow
-- after 2^31 sources is not modelled. The channel of a source is a natural number, since
-- new_source() asserts that it is not negative; where one is read that is, the reader fails.
-- Publisher::subscribe() and unsubscribe() are functions of their own and no value of
-- Publisher.Call. A pointer to a source is the id of its entry, but its address in query_state,
-- which compares addresses; a null pointer is none. A failed assert() is the result none. The loop
-- of rem_all_sources() runs on as much fuel as there are entries, which is enough because each
-- round removes one. A pointer to a subscriber is a Handle, and what an object behind a dangling
-- pointer would do is not modelled: a call of it is none, too. So is an exception that leaves
-- load_scene(). The agreement of the Scene and the renderer has a parameter, an Extent: it speaks
-- of the amplitude reference distance only where `told` is true, and of the reference orientation
-- only where `aimed` is true. The loop of run() on the console has fuel, which is enough above the
-- length of what is typed up to the letter that ends it.
--
-- Not modelled: the signal processing of the renderers, and the Audio Processing Framework under
-- apf, a library of its own. Its SharedData and RtList are seen as the realtime thread sees them
-- after all queued commands, so RtList::add appends and RtList::rem removes one element. What the
-- audio player answers to the Controller, or that an assertion fails in it, is a parameter there,
-- as are the answers of Ecasound and JACK to the audio player, and those of getcwd() and rand().
-- The functions that read a number or a word (S2A, string2time) and libxml2 are parameters of the
-- parser of requests and of load_scene(): a document is what an XPath expression finds in it, and a
-- document that is written is its tree of nodes. The GUI, the trackers and the JACK transport are
-- left out; what they answer to the constructor and to run() is the record Host. Configuration
-- files and the answers of getopt_long() are arguments, apf::parameter_map is a parameter; of the
-- channels of a reproduction setup, an overflow of int is only modelled in the check at the end of
-- load_reproduction_setup(). std::sort() and std::upper_bound() are written out for lists; the
-- order of loudspeakers with the same angle, which std::sort() leaves open, is one of the possible
-- ones.
pub mod Common
pub mod Geometry
pub mod Source
pub mod Subscriber
pub mod Publisher
pub mod Scene
pub mod Renderer
pub mod Network
pub mod CommandParser
pub mod PathTools
pub mod SceneFile
pub mod Controller
pub mod Connection
pub mod Server
pub mod Configuration
pub mod Loudspeakers
pub mod Vbap
pub mod AudioPlayer
