-- ===== src/Lib.antt =====
-- Verification library of teleop-led-benchmarks.
--
-- The program measures the latency of switching an LED over a network: a desktop application
-- (desktop_app) waits for an ESP32 (esp32_cam) to connect, over WebSocket or TCP, sends it a
-- command when a button is clicked, and shows the time until the response. Each part has its own
-- modules; Session runs both over one connection.
--
-- Desktop: desktop_app/src/app.cpp and desktop_app/main.cpp.
--   Desktop.State has `AppState`, its events and results; the io_context is a record of what was
--   started on it (accepts, reads, writes, posted frames). Desktop.Net has the functions that start
--   an operation (`asyncWaitFor...`, `wsAsyncRead`, `tcpAsyncRead`) and their handlers,
--   Desktop.Frame the steps of `runAppLoop`, Desktop.Run the order in which the io_context calls
--   handlers: any list of events, each of which runs only while it is outstanding. Desktop.Main is
--   the command line, Desktop.Utils the two helpers of desktop_app/src/utils.hpp and utils.cpp.
--   `Outcome` is a state, a null pointer read, an exception or an abort, and Desktop.OrAborts has
--   what follows where only an abort is possible.
-- Firmware: esp32_cam/main.
--   Firmware.AppMain is `app_main`, over the front end of Connect; Firmware.AppMain.Addressed and
--   Firmware.AppMain.Succeeds put the links' connecting functions and their events under it.
--   Firmware.TcpClient is the class of tcp_client.cpp over a log of its socket calls, Firmware.TcpApp
--   is `tcpAppStart`, Firmware.HostPort its port, Firmware.WebSocket is `websocketEventHandler`, and
--   Firmware.WebSocketApp is `websocketAppStart` with its timer and semaphore, of main.cpp.
-- Connect: esp32_cam/protocol_examples_common.
--   Connect.FrontEnd and Connect.Netif are connect.c: connecting and disconnecting over what each
--   link's functions return, and the interfaces that it finds by their descriptions and prints.
--   Connect.Netif.Links has the descriptions and the default interface of
--   include/protocol_examples_common.h.
--   wifi_connect.c is Connect.Station, its variables and event handlers, Connect.StaConfig, the line
--   of credentials that it reads, and Connect.Wifi, the task that waits in
--   `example_wifi_sta_do_connect`, which runs between any two handlers, or within the handler that
--   gives up, between its gives and its deletes, and its start and shutdown. A task that takes a
--   deleted semaphore is left there, since its behaviour is then undefined.
--   Connect.ConsoleCmd is console_cmd.c, two commands over the same station.
--   Connect.Ethernet is eth_connect.c over the driver of Connect.EthDriver, the objects that are made
--   and deleted; Connect.Ppp is ppp_connect.c with the task of its UART, and Connect.Thread is
--   thread_connect.c. In each the connecting task's waits run between events in any order. In
--   eth_connect.c a give or delete of a semaphore that is NULL aborts.
--   Connect.Selection has the choices of the configuration that macros of
--   include/protocol_examples_common.h and include/example_common_private.h turn into values, and
--   Connect.ThreadConfig the platform configuration of include/protocol_examples_thread_config.h.
--   Connect.Address is addr_from_stdin.c with stdin_out.c, over the bytes of the standard input.
-- Session: `runApp` of the desktop and the firmware's side of either connection.
--   Session has the interface `Board`, a side that receives messages and answers with texts, and the
--   steps of a session; Session.Boards fills it by `websocketEventHandler` and by the loop of
--   `tcpAppStart`. A step is a handler of the desktop, the delivery of its oldest message to the
--   board, whose texts are then on their way back, or that of the oldest such text to the desktop's
--   read. The transport is a queue in each direction that delivers whole messages, each once. In
--   Session.Pieces and Session.Stale a command arrives in pieces over TCP, in Session.Control ping and
--   pong frames reach the firmware, and in Session.Closed the desktop's connection ends. That messages
--   are lost is not in these sessions.
-- Uri: esp32_cam/protocol_examples_common/protocol_examples_utils.c.
--   Uri.Tables has the bitmap tables, Uri.Encode and Uri.Decode the loops over a memory of bytes;
--   pointers are addresses, so buffers may overlap. Uri.Decode.Machine is the list level of the
--   decoding loop.
-- Common has Boolean tests, lists of bytes, the memory, and signed integers; Common.Cstring has the
-- functions of the C library that read a line and its words.
--
-- What a call outside this repository answers (Boost.Asio, ImGui, the clock, the sockets of lwIP,
-- ESP-IDF, cJSON, getaddrinfo) is an argument of the operation that makes the call. The loops are
-- recursive on sizes and lists, and an event loop runs over a list of events. One loop runs on fuel,
-- that of `get_addr_from_stdin` over empty lines: each round reads at least one byte, so the input's
-- length and one more are enough. Lengths returned as `uint32_t` are taken modulo 2 ^ 32, digits as
-- `u_char` modulo 256, the channel of a console command modulo 256, the host's port modulo 2 ^ 16; a
-- latency is a difference of clock readings that stops at 0, which a steady clock never goes below.
-- Standard input that ends is not told apart from input that is still to come.
--
-- Not modelled: windows and drawing calls, logging without an effect, the declarations in the headers
-- of esp32_cam/protocol_examples_common/include, the pin and clock numbers of the Ethernet driver, the
-- tests, and desktop_app/third_party, a copy of another project's library that nothing calls.
pub mod Common
pub mod Connect
pub mod Desktop
pub mod Firmware
pub mod Session
pub mod Uri
