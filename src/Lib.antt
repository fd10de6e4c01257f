-- ===== src/Lib.antt =====
-- picow-bt-kb-hid: firmware that makes a Bluetooth boot keyboard a USB keyboard.
--
-- The main loop calls three tasks in turn. The task of bt/bluetooth.c polls BTstack, whose events drive
-- one connection through the states of bt/bt_state.c: it searches for a keyboard, connects,
-- authenticates, reads the keyboard's SDP record, opens two L2CAP channels, and then forwards each
-- boot report to the ring of usb/hid_keyboard.c, whose task hands them to TinyUSB. Text commands from
-- the CDC port and requests from the web page go through the queue of bt/control_request_queue.c and
-- are executed by the Bluetooth task. The LEDs that USB sets go back to the keyboard.
--
-- The modules follow the files. Functions, types and constants have the names of the source; a function
-- that changes an object takes it and returns the new one, and a pointer into an array of devices is
-- the address of the device, through which `modify` writes.
--
--   * Base: helpers on lists, tests and bytes; Base/Window: the slots of a ring in order.
--   * Bt/State: bt/bt_state.c; Bt/State/Graph: runs of allowed transitions.
--   * Bt/Channels: bt/hid_channels.c.
--   * Bt/Control and Bt/Snapshot: include/bluetooth_control.h, the requests and the snapshot.
--   * Bt/RequestQueue: bt/control_request_queue.c, with the queue of eight that it implements.
--   * Bt/Command: bt/control_command.c.
--   * Bt/BootReport: bt/hid_boot_report.c.
--   * Bt/Devices: bt/device_manager.c.
--   * Bt/ReportDescriptor: bt/hid_report_descriptor.c, the usages, the items and the loop.
--   * Bt/Sdp: bt/sdp_parser.c, the elements, the searches and the reassembly.
--   * Bt/App: bt/bluetooth.c. Model is the record of its static variables and the calls made so far;
--     Link, Hid, Pairing and Events are the handlers, with `handle` for an event; Requests and Task
--     are the requests and the task; Run has the states that are reached from power-on by events, tasks,
--     requests and rounds of the USB task, in any order; Snapshot is
--     `bluetooth_control_get_snapshot`; Usb has the functions that USB calls.
--   * Usb/Keyboard: usb/hid_keyboard.c; Usb/Serial: usb/usb_serial.c; Usb/Demo: usb/keyboard_demo.c;
--     Usb/Descriptors: the strings of usb/usb_descriptors.c.
--   * Web/Json: web/control_json.c, with Web/Json/Printer, the text that it is to write,
--     and Web/Json/Strings, a reader of JSON strings.
--   * Web/Request and Web/Config: web/web_config.c, the text of a request, and the clients, the replies
--     and the callbacks of lwIP. Web/Config/Receive is about the data of a request, and
--     Web/Config/Server has the states that the callbacks reach.
--
-- BTstack, TinyUSB, lwIP and the flash store are parameters. Bt/App/Platform has the constants of
-- BTstack that the code compares with, the events with the fields that the code reads, and the
-- answers that its functions give while one event is handled. Nothing is assumed of these libraries,
-- but, where a theorem says so, that a connection reported as made has a handle other than the
-- invalid one, that the CDC port takes no more bytes than it is offered, and that lwIP makes no call
-- for a client that was closed and accepts no connection that is NULL. A test of a status against the
-- literal 0 stays apart from one against `ERROR_CODE_SUCCESS`.
--
-- Numbers are natural numbers; where the source's type wraps, the wrap is written out. Loops over an
-- array recur on the list. Three loops recur on fuel: the items of a report descriptor, with the number
-- of its bytes, since each item takes a byte at least; the children of an SDP sequence and the nesting
-- of the search for a PSM, with the number of bytes of the sequence and of the attribute, since an
-- element takes a byte at least and is longer than what it holds; the validation has the bound on the
-- nesting that the source has. The loop that executes requests has one round more than the queue has
-- places, since no request is added meanwhile. The loop that drains the log has as many rounds as bytes
-- wait, since a round that goes on has written one at least.
--
-- Of the C library, the source uses `strncpy`, `strlen`, `strcmp`, `strstr`, `sscanf` with two words and
-- `vsnprintf`; Base/Text, Base/Format, Web/Request and Web/Json have what they do on the arguments that
-- they are given here. A text that is only printed to the CDC port is any list of bytes.
--
-- Not modelled: the DHCP server of web/, which is another project's code; the constant page of web/;
-- the start of the access point and of the listener; what is only printed; the constant tables that
-- TinyUSB asks for; start-up calls that only configure BTstack.
pub mod Base
pub mod Bt
pub mod Usb
pub mod Web
