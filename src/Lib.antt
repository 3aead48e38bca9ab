-- ===== src/Lib.antt =====
-- M1Switch: models and theorems of the emulator's deterministic core.
--
-- src/gpu: a guest's pushbuffer is parsed by the GPFifo, which calls back with method writes; the
-- StateTracker sends those of the 3D engine's subchannels to Engine3D, whose register state it
-- snapshots into a queue of draws.
--   Gpu/Fifo     src/gpu/engine/GPFifo.h and .cpp: header words, modes, the parse loop (`process`)
--   Gpu/State    src/gpu/maxwell/GpuState.h: the register state
--   Gpu/Engine   src/gpu/engine/Engine3D.cpp, numbers from src/gpu/maxwell/MethodDefs.h: `route` is
--                the range tests and the switch of HandleMethod, `write_target` the handlers
--   Gpu/Tracker  src/gpu/StateTracker.h and .cpp: OnMethod, PushBuffer, the pipeline key
-- src/gpu/shader: a shader binary is cut out of the guest's program region, decoded word by word and
-- converted to the intermediate representation.
--   Shader/Ir       src/gpu/shader/ShaderIr.h, and the hash of ShaderIr.cpp
--   Shader/Opcode   src/gpu/shader/MaxwellDecoder.cpp: DetectFormat, DecodeOpcode
--   Shader/Decoder  the field extractors of each format, the switch of DecodeOne
--   Shader/Convert  DecodedInst::ToIr
--   Shader/Program  DecodeOne with its context, the loop of Decode (`decode_from`)
--   Shader/Extract  ShaderExtract::ExtractShader
-- src/memory: the guest's address space, its heap, stack and page table.
--   Memory       src/memory/Memory.h and .cpp, alignment of src/common/Types.h; the host's virtual
--                memory calls are the record `Mach`, about which nothing is assumed
-- src/kernel: handles of kernel objects, and the system calls on events and handles.
--   Kernel       src/kernel/Kernel.h (KHandleTable, KEvent), src/kernel/SvcHandlers.cpp (events,
--                transfer memory, CloseHandle, WaitSynchronization until it blocks)
-- src/services: the driver services, and the manager that carries a client's messages to a service.
-- SubmitGpfifo reads words from the guest memory (its `load`) and hands them to the StateTracker;
-- nvmap's Alloc maps its buffers with MapPhysical; HandleRequest calls a service through the
-- interface `Services` and writes output buffers through `Guest`.
--   Nv           src/services/Nv.h and .cpp: the buffers and their handles (`NvMap`)
--   Nv/Map       the handlers of nvmap, the carveout, the C functions of its end
--   Nv/Channel   nvdrv, nvdrv# (channel, SubmitGpfifo), nvhost-ctrl (sync points)
--   Ipc          src/services/Ipc.h and .cpp: services and sessions
--   Ipc/Message  the hipc header, the offsets in a message, the receive list
--   Ipc/Request  the command in a message, and the handle that its answer carries
--   Ipc/Handle   the stages of HandleRequest; a change of the session list by a service is seen by
--                the stages after it
--   Ipc/Response the response to a handled command
--   Sm           src/services/Sm.cpp: GetService, which cleans the name, starts the services of the
--                name and asks the manager for a session
--   Service      the replies of HandleCommand
--   Examples     runs at concrete inputs
--   Base         shared helpers: tests, lists, options, dictionaries, bit fields, bytes, buffers
--
-- Words are natural numbers; masks and shifts are remainders and quotients by powers of two, with
-- the wrap-around written out where the code can reach it. A float register is its bit pattern, an
-- enum field its number. The parse loop runs on fuel, one round for each word of the buffer and
-- one more, which is enough since each round consumes its header. An operation that C++ leaves
-- undefined gives `none`. The loop of Decode runs on size / 8 + 3 rounds, each of 8 bytes or more,
-- and the scan of ExtractShader on one round for each word available and one more; both compute
-- their offsets on 32 bits, which is why sizes are taken a little below 2^32.
--
-- A session is found by its id each time that the code looks for it. An access outside a message
-- or a response buffer is undefined in C++, so it gives `none` as well.
--
-- Not modelled: Write of the guest memory but as a parameter, log and trace calls, the SPIR-V
-- emitter, the Metal back end, the user interface, the kernel's threads and locks, the loaders, and
-- the services but for the drivers and the service manager.
pub mod Base
pub mod Examples
pub mod Gpu
pub mod Ipc
pub mod Kernel
pub mod Memory
pub mod Nv
pub mod Service
pub mod Shader
pub mod Sm
