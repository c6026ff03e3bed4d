-- ===== src/Lib.antt =====
-- skai-edge-native, a C++17 edge AI service: one RTSP source feeds an inference queue, an H.264
-- branch feeds recording, LAN WebRTC and a WHIP uplink, and detections travel to cloud viewers as SEI.
--
-- How the parts interact. The source hands frames and access units to bounded queues, which drop the
-- oldest value when they are full; when its pipeline fails, it empties them, and the recovery policy
-- schedules the next attempt. The WHIP uplink takes access units, gives them RTP timestamps, asks the
-- selector for the SEI NAL unit that goes with each, inserts it before the first VCL NAL unit, and
-- keeps its session by the resource URL and the peer state. Events go through one channel to the
-- inboxes of the WebSocket clients, each of which has one write on the way at most. An HTTP session
-- gives its request to the static files or to the routes, which read the shared API state and change
-- the detector, the recording controller and the WebRTC sessions; the detector takes a permit from
-- the API state before it works, and its results are committed only while the permit is good. The
-- application initializes, starts, stops and joins all modules in order, and the watchdog polls them.
-- The configuration is read and validated before all this; its limits are the capacities and delays
-- of the queues, the policies and the viewers. The WebRTC manager hands each access unit to the queue
-- of each viewer, whose thread sends it on.
--
-- Files, and the code that they model:
--   Common        numbers of 32 and 64 bits with their wrap-around, lists, byte strings
--   BoundedQueue  include/skai/core/bounded_queue.hpp: every method of BoundedQueue
--   RtspRecovery  include/skai/video/rtsp_recovery.hpp: every method of RtspRecovery
--   RtspSource    src/video/rtsp_source.cpp: publish_media_status, set_error and publish_recovery, the
--                 caps (Caps), capture_access_unit, capture_sample and read_jitter_stats (Capture), and
--                 the constructor, start and stop (Start), and capture_loop (Worker)
--   Whip          src/webrtc/whip_policy.cpp: whip_resource_url (ResourceUrl), WhipRtpClock (RtpClock)
--                 and WhipPeerState (Peer); src/webrtc/whip_publisher.cpp: the media loop of publish_once
--                 (Publisher), with run and the other methods in Session and load_token in Token
--   Sei           src/webrtc/detection_sei.cpp: encode_user_data_sei_nal (Nal),
--                 insert_before_first_vcl (Insert), detection_sei_json (Json), and SeiResultSelector
--                 (Selector), whose take_for makes its results fit in Fit, with stable_sort in Sort
--   Events        src/events.cpp: EventChannel, EventQueue, EventInbox and the JSON text of events
--   Application   src/application.cpp: initialize, start, stop and wait
--   Health        src/health.cpp: HealthWatchdog, and the probes of the parts (Components)
--   Api           include/skai/api_state.hpp: ApiState; include/skai/status.hpp: RuntimeStatus (Status);
--                 src/gps: the source, the cell and the module (Gps)
--   Cli           src/cli.cpp: parse_command_line
--   Media         include/skai/video/encoded_access_unit.hpp
--   Recording     src/video/recording.cpp: RecordingController, and the loop of RecordingModule (Worker)
--   Alerts        src/alerts/alert_manager.cpp: configure and process, with the state of one rule in Rule
--                 and persist in Snapshot
--   Config        src/config.cpp: check_keys and read_scalar (Document), the tests on hosts and ports
--                 (Hosts), validate (Validate), parse, parse_config and validate_video_config (Parse)
--   Web           src/web/static_file_handler.cpp: decode_path, the constructor and handle (StaticFiles);
--                 src/web/router.cpp: route_request (Router), with the choice of the route in Requests,
--                 the query in Query and Alerts, the other replies in Replies and their texts in
--                 Documents; src/web/http_server.cpp: HttpSession (HttpSession);
--                 src/web/websocket_session.cpp: WebSocketSession (Socket), with its texts in Messages.
--                 Json is a tree for the JSON texts that both print, with a reader for them;
--                 the alerts are also written piece after piece (Documents.Streamed)
--   WebRtc        src/webrtc/webrtc_manager.cpp: WebRtcSession (Session), its media_loop (MediaLoop) and
--                 WebRtcManager (Manager), whose fields and closed sessions are in State and whose
--                 hash map is in Table
--   Inference     src/inference/yolo_postprocess.cpp: the suppression of overlapping boxes
-- Operations keep the name of the method or function; helpers are named for the lines they stand for.
--
-- How it is modelled. An object is a record and a method a function that returns the new record. A
-- method that holds the object's mutex is one step, and an interleaving of threads is a list of
-- calls. Clocks are arguments, in the unit of the source. Strings are lists of bytes. An exception
-- is a value. Numbers that the code counts in 32 or 64 bits wrap in the model as well. A structure
-- that several parts read may have a record in each of them with the fields that the part uses.
--
-- Bounds and fuel. Loops over a container are structural. The size bytes of an SEI message, the
-- digits of a number, the drain of an inbox and the search for the boxes that fit take fuel from
-- the value that the loop makes smaller in each round, and so do the loop over the labels of a
-- host name and that over the parameters of a query, from its length. The reader of JSON texts takes
-- the size of the document. The wait for ICE gathering ends by the clock, and its number of rounds
-- is an argument.
--
-- Parameters. Floating-point values are elements of any type, with what the C library prints for
-- them, the ten-thousandths of them and the comparisons as functions. The modules of
-- the application and the probes of the watchdog are what they answer. Time stamps in texts and the
-- version text are arguments. What yaml-cpp, the C library's numbers and inet_pton answer on a
-- configuration is one record, the filesystem of the static files is another, what the alert
-- repository answers on a query is a third, and the answers of
-- GStreamer, libdatachannel, files and clocks in a round of a worker are the fields of that round.
-- The result of create_session, which is the work of libdatachannel, is an argument of the routes.
-- Records of what a loop was given and put out are kept for the statements only. A queue goes on
-- while the loop that empties it runs: what it drops before pop_for and between pop_for and the
-- reading of its counter are two numbers of a round. A map of
-- subscribers is a list in the order of subscription, where the source's hash map gives them in an
-- order of its own.
--
-- Not modelled: the calls of GStreamer, libdatachannel, Boost.Beast, SQLite, OpenCV, CUDA and
-- TensorRT, SDP, the building of the source's pipeline, its count of callbacks, the snapshot of its
-- diagnostics and rtsp_video_module, the encoder, the SQL of the alert repository, the set-up and
-- shutdown of the HTTP server, IngestRate and SystemMetricsSampler, the clean-up of
-- alerts, the rest of inference, logging, normalize_sei_box and dt_percentile (floating-point
-- arithmetic), and the browser client. Between two critical sections that a model takes as one step,
-- which its file names, other threads may run in the source.
pub mod Common
pub mod BoundedQueue
pub mod RtspRecovery
pub mod Whip
pub mod Sei
pub mod Events
pub mod Application
pub mod Health
pub mod Cli
pub mod Media
pub mod Recording
pub mod WebRtc
pub mod Config
pub mod Alerts
pub mod Web
pub mod Inference
pub mod Api
pub mod RtspSource
