-- ===== src/Lib.antt =====
-- The C programs of IP65, a TCP/IP stack for 6502 computers. The stack itself (ip65/, drivers/) is
-- assembly; the programs in apps/ are C and use it over inc/ip65.h. This library is about them.
--
-- Parts, and how they interact:
-- - apps/w5100.c drives the TCP engine of the W5100 Ethernet chip through four I/O registers (W5100;
--   its parts are studied in W5100/Ports, Bus, Mode, Window, Configuration, Connection, Commit and Waiting).
--   Its machine is a record of loads and stores.
-- - apps/w5100.h is the interface that the next two parts are clients of (Socket): a record of
--   operations, the poll that begins each round of their loops, and the laws a receiver and a sender
--   rely on, in the states in which no command is outstanding (Socket, Socket/Laws and Closing);
--   Socket/Script is a socket that meets them, and so is the driver: W5100/Interface has its
--   functions as the operations, W5100/Receiving, Sending, Duplex and Draining what it relies on
--   about the two ring memories of the card and what follows from that (with W5100/Accesses,
--   Request, Falling and Patience for what both directions share), W5100/Card has it all together,
--   W5100/Exchange is about any order of receiving and sending, and W5100/Ring is a card in memory
--   with all these properties.
-- - apps/w5100_http.c sends a request and receives the header of the response (Http; its loops are
--   studied in Http/Request, Header, Response and Endless, the whole in Http/Opening and Closes).
-- - apps/wget65.c: completion of URLs and file names (Wget/Completion), the file name proposed for a
--   URL (Wget/Name), the drive specification (Wget/Drive), the arguments and their loops
--   (Wget/Arguments), the download into a file (Wget/Receive) and to a disk drive in either sector
--   order (Wget/Device), and main, which composes these with the connection and Http (Wget/Program; over
--   the driver in Wget/Program/Card; its working directory in Wget/Program/Directory).
-- - apps/ifttt.c composes the URL of a webhook and reads the status of the answer (Ifttt).
-- - apps/tweet65.c: the line editor (Tweet) and main, which takes the key from a file or from the
--   editor and calls Ifttt (Tweet/Program).
-- - apps/date65.c sets the clock by NTP and starts the next program (Date).
-- - apps/hfs65.c serves directories, files and disk images (Hfs/Send, Hfs/Page, Hfs/Server);
--   its main is Hfs/Program.
-- - The blocks that the programs begin with alike are in Startup.
-- Common holds lists, buffers, bit operations, characters and 16-bit words.
--
-- Conventions. A state machine or device is a record of functions on a state, which each operation
-- passes on; the C library's files, directories and drives, ip65 and the hardware are such
-- parameters, and what a theorem relies on about them is a record of laws or a hypothesis. A text or
-- a buffer is a list of bytes. `uint16_t` and `uint32_t` arithmetic has its wrap-around written out.
-- The builds are those for the Apple II, of w5100.c that without SINGLE_SOCKET.
--
-- Loops that wait for the network run on fuel, and return none when it runs out. A download needs
-- more fuel than the bytes of the stream and the requests that find nothing together, since every
-- other round ends it; so does the loop that receives the header, and the loop that sends the
-- selector needs more than its characters and the requests that find no room. The loops of W5100
-- that wait for the card need more fuel than the rounds in which a card answers or gives a size
-- twice. The two loops of
-- wget65 for the arguments go on as long as what they get is refused, with one unit of fuel for each
-- round. The loop over a chunk in Http counts the chunk's bytes, and the
-- line editor consumes its keys, so they need no fuel.
--
-- Not modelled: the assembly sources in ip65/, drivers/ and test/, whose routines are parameters
-- here; apps/linenoise.c, a library by others; what the programs print, the cursor and the pauses;
-- the test programs in test/.
pub mod Common
pub mod Date
pub mod Hfs
pub mod Http
pub mod Startup
pub mod Tweet
pub mod Ifttt
pub mod Socket
pub mod W5100
pub mod Wget
