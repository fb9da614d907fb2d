-- ===== src/Lib.antt =====
-- CuteIPC: calls of methods and signals between processes, over local sockets or TCP.
--
-- The parts. An application calls a method of a remote object through CuteIPCInterface. The call
-- becomes a CuteIPCMessage, CuteIPCMarshaller turns it into bytes, and CuteIPCInterfaceConnection
-- writes them to a socket behind their size. At the other end CuteIPCServiceConnection collects the
-- bytes into blocks, reads each block back into a message, invokes the method or passes a request
-- on to CuteIPCService, and writes the answer. A CuteIPCSignalHandler captures a signal of an object
-- and passes it on, as a message, to its listeners. Signals come to a client over a long-lived
-- connection of its own, which CuteIPCInterfaceWorker opens and registers with the service.
--
-- The files, with the code that they are about (in src/ of the repository):
--   Message           CuteIPCMessage.cpp and CuteIPCMessage_p.h: the message and its constructors
--   Marshaller/Write  CuteIPCMarshaller.cpp: marshallMessage and the functions that it calls
--   Marshaller/Read   CuteIPCMarshaller.cpp: demarshallMessage, demarshallMessageType,
--                     demarshallResponse and the functions that they call
--   Receiver          readyRead and readMessageFromSocket of CuteIPCServiceConnection.cpp and
--                     CuteIPCInterfaceConnection.cpp
--   SignalHandler     CuteIPCSignalHandler.cpp: relaySlot, addListener, removeListener, ...
--   SignalHandler/MetaTables, MetaCalls  the same file: the hand-edited tables of its meta object, and
--                     qt_metacall
--   Service           CuteIPCService.cpp: the slots _q_... that keep the registry, and the functions
--                     of CuteIPCServiceConnection.cpp that write
--   ServiceConnection CuteIPCServiceConnection.cpp: processMessage
--   InterfaceConnection  CuteIPCInterfaceConnection.cpp: sendCallRequest and the switch over a block
--   Interface/State   CuteIPCInterface.cpp: the tables of CuteIPCInterfacePrivate
--   Interface/Request CuteIPCInterface.cpp: sendSynchronousRequest, call, callNoReply, ...
--   Interface/Connect CuteIPCInterface.cpp: remoteConnect, remoteSlotConnect, disconnectSignal, ...
--   Worker            CuteIPCInterfaceWorker.cpp: the object that keeps the long-lived connection
--   Client            CuteIPCInterface.cpp: connectToServer and disconnectFromServer, and the signals
--                     between an interface and its worker
--   Servers           CuteIPCService.cpp: listen, listenTcp, close, ..., and the constructors and
--                     errorOccured of CuteIPCServiceConnection.cpp
--   Memory            CuteIPCMarshaller.cpp: what reading a message allocates, freeArguments, and the
--                     functions of the other files that free arguments
--   Remote            both ends together; Remote/Session has an interface, its worker, the bytes on
--                     their way and the service as parts whose steps come in any order,
--                     and Remote/Downlink the same for the way from the service to the interface
--   Qt, MetaObjects   what the code relies on of Qt, as records of operations and laws: QDataStream,
--                     QImage, QMetaType and QMetaObject. They are parameters of the model, as are
--                     QLocalServer and QTcpServer in Servers.
--   Example           concrete parameters, and the results listed below at concrete inputs
--   Prelude           shared names and lemmas
-- A function has the name of the source's function, in small letters. The modules below a part's
-- module have its proofs.
--
-- Choices. A QByteArray is the list of its bytes and a QString that of its code units; a null
-- QString is the empty one. A call returns `ok`, `fail` (the code returns false) or `fault`
-- (undefined behaviour, such as a cast to a type that the object does not have). An object is a
-- number; deleteLater counts as deletion. What is written to sockets is kept as a log. The loop
-- of readyRead runs on fuel: as many rounds as the socket has bytes and one more. The wait for
-- an answer goes over what arrives (blocks, errors, the loss of the connection), and is `none`
-- while no answer came. Sizes are quint32, and as an int negative from 2 ^ 31 on. Of a
-- QDataStream the laws say only that what was written is read back, so what it reads from other
-- bytes is whatever its operations give.
--
-- Q_ASSERT(argc <= 10) is a test whose failure is `fault`. A connection learns of a block that was at
-- the socket with the block before it by `block_with_last`, which ends no wait of its own. An emission
-- of the subject is captured by each handler of its signal, and in a history each capture is a step.
-- The addresses of a heap are given out in turn, and a cell keeps what it was allocated as.
--
-- Not modelled: what the threads of an interface and its worker do within a slot, which runs as one
-- step, also while a synchronous call waits; events that arrive while a method is being invoked or a
-- constructor runs; the memory inside the values of Qt and of queued calls; logging.
pub mod Prelude
pub mod Qt
pub mod Message
pub mod Marshaller
pub mod Receiver
pub mod MetaObjects
pub mod Memory
pub mod SignalHandler
pub mod Service
pub mod Servers
pub mod ServiceConnection
pub mod Example
pub mod InterfaceConnection
pub mod Remote
pub mod Interface
pub mod Worker
pub mod Client
