-- ===== src/Lib.antt =====
-- RTMP relay and transcoder. A publisher's bytes go through the handshake and the chunk parser,
-- which makes messages of them; a message that carries a command is decoded from AMF0; the relay
-- answers commands and passes media messages on to another server, over the chunk encoder, or to
-- the transcoder, which decodes them, encodes them again and sends them on, over a client for each
-- output.
--
-- Bytes: include/core/bytes.hpp. Chunks: include/rtmp/rtmp_chunks.hpp and
-- src/rtmp/rtmp_chunks.cpp; ChunkParser::parse_header is Chunks/Header, the loop of
-- ChunkParser::parse is Chunks/Parse, encode_chunk is Chunks/Encode. Messages: the control
-- messages of src/rtmp/rtmp_messages.cpp. Amf0: src/rtmp/amf0.cpp. Commands: CommandMessage of
-- src/rtmp/rtmp_messages.cpp. Buffer: src/net/buffer.cpp. Handshake: src/rtmp/rtmp_handshake.cpp.
-- Session: src/rtmp/rtmp_session.cpp, which holds a handshake, a parser and a buffer. Relay:
-- src/relay/relay_manager.cpp, over the interface of a client; Relay/Reading is the read handler
-- of publishers, Relay/Publisher their commands and media, Relay/Pusher the pushers', Relay/Url
-- their addresses. Net/Socket and Net/Address: src/net/socket.cpp. Client:
-- src/rtmp/rtmp_client.cpp, with its handlers in Client/Events; Client/Stream, Client/Writes,
-- Client/Sending, Client/Actions and Client/Drain follow what it sends, Client/Fragments and
-- Client/Establishing its handshake, Client/Operations, Client/Safety, Client/Delivery,
-- Client/Handlers and Client/Running any events. Cli: src/core/cli.cpp. Program: src/main.cpp.
-- Transcode: src/transcode/transcoder.cpp and the start codes of
-- src/transcode/encoder_openh264.cpp; Transcode/Outputs is what becomes of a frame,
-- Transcode/Publishing the callbacks of an output's client, Transcode/Sources what reaches the
-- decoders, over the interface of Transcode/Codecs. Base holds what these share. In each, one
-- function stands for one method or for one branch or loop of it, under the method's name or a
-- name for what the branch does.
--
-- A byte, a word and a std::string are numbers and lists of numbers; wrap-around of uint32_t and
-- size_t is written out as a remainder. A double is its bit pattern. Object maps are association
-- lists in the order of std::map. The map from chunk stream ids to their state is a function. What
-- the standard library decides is a parameter: the random numbers of the handshake, the capacity
-- that a vector grows to, what memory holds before it is written.
--
-- Loops take fuel: the chunk parser's loop as many passes as there are bytes, the encoder's as
-- many as the payload has bytes, the AMF0 decoder's calls two per byte, the loop over NAL units
-- one pass per byte. A pass of the parser that goes on consumes a header, so a byte at least; a
-- pass of the encoder consumes the payload's next bytes unless the chunk size is 0, and then the
-- result is none; an AMF0 value has its type byte, and a member its two length bytes; a NAL unit
-- has its length.
--
-- Net/EventLoop and Net/Server: src/net/epoll_loop.cpp and src/rtmp/rtmp_server.cpp.
-- Relay/Pushers: the map of pushers, with the events of all streams in any order; Relay/Wire and
-- Relay/ClientCallbacks: a pusher over the client, which calls it back. Not modelled: what a
-- pusher does while it is being destroyed (a stream that is published again), a client that its
-- own callback of a disconnection destroys, logging, clocks, signals, and the calls of openh264,
-- fdk-aac and libyuv: the codecs are a parameter of the transcoder. What the system answers to a
-- call of a socket, and what a name is resolved to, are arguments of the operation.
pub mod Base
pub mod Bytes
pub mod Chunks
pub mod Messages
pub mod Amf0
pub mod Commands
pub mod Buffer
pub mod Handshake
pub mod Net
pub mod Client
pub mod Cli
pub mod Program
pub mod Session
pub mod Relay
pub mod Transcode
