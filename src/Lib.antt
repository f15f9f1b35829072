-- ===== src/Lib.antt =====
-- A verification library for the dvnetos kernel (kernel/, C++ for x86-64 and aarch64).
--
-- The parts and their files:
-- - Base: the names that the other modules share, lists over the native numbers, `size_t`
--   arithmetic with its wrap-around (`add64`, `sub64`, `mul64`), integers.
-- - MemPool: the allocator of kernel/memory/memalloc.cpp. `Pool` has the fields of `MemPool`;
--   `alloc`, `free`, `add_free_block`, `merge_if_possible`, `find_existing_free_block` are the
--   methods of those names. The free list, threaded through the blocks in the source, is the list
--   of its blocks (address and size) in link order, and `live` stands for the headers of the
--   blocks that clients hold. The page source behind `getPage` is the record
--   `MemPool.Valid.PageSource`, with what its contract promises. The bytes of a block are not
--   modelled: where the link of a free block would be stored over what stands behind it (a remnant of
--   less than eight bytes), `split` is `none`, and `MemPool.Links` has the room for links that a valid
--   pool keeps. The passes of `addFreeBlock` run on
--   fuel, one more than the number of free blocks: each pass that merges takes a block off the
--   list.
-- - CString: kernel/utils/cstring.cpp over one memory of bytes. The loops that stop at a zero byte
--   run on fuel; it is enough that it exceeds the number of characters.
-- - Stdio: kernel/utils/stdio.cpp. A format is the list of its characters, an argument list the list
--   of its typed values; `Run` is the outcome of a call (a value, a panic, undefined behaviour,
--   which an int counter that overflows is too). A store behind the end of a buffer that the caller passes
--   is one to the memory there. `Stdio.Print` has the loop of `kvsnprintf`, on as much fuel as the format has characters, and
--   `Stdio.Render` the text that a format stands for, without a buffer.
-- - Bytes: kernel/utils/bytes.cpp, on fuel for four calls, one for each unit.
-- - Paging: kernel/arch/x86_64/memory/paging.cpp and paging.h. The tables stand in a memory of 64-bit
--   words addressed by their first byte, and `none` is a panic. `map_memory` is `mapMemory`, its loop on
--   the number of pages; `Paging.Tree` says what it is that the memory holds a tree of tables, and
--   `Paging.View` what mapMemory does to the entries at its leaves. `Paging.Walk` has
--   `walkPageTableLeaf`, with its callbacks as parameters, and `pageTableToRanges`, `Paging.Calls`
--   the calls that the tables of a memory ask for, and `Paging.Runs` the runs of leaves in them;
--   `Paging.Init` has `Paging::init`, and `Paging.Flags` `tableFlagsToString`.
-- - Aarch64: kernel/arch/aarch64/memory/paging.cpp and paging.h, on the same memory of words.
--   `map_page` and `unmap_page` are a round of the loops of `mapMemory` and `unmapMemory`; `Aarch64.Init` has
--   `Paging::init`, whose callbacks change the memory that `Aarch64.Walk` reads. What the registers hold,
--   the entries of the memory map and the numbers of limine.h are in the record `Boot`.
-- - Serial: kernel/arch/aarch64/serial/Serial.cpp and kernel/arch/x86_64/serial/Serial.cpp. What is sent
--   is a list of bytes; `init` maps its registers with `Aarch64.map_memory`. `Serial.Order` has what is sent
--   by calls before and after it.
-- - Framebuffer: kernel/framebuffer/Framebuffer.cpp over a store of pixels, and `updateScreen` of
--   VirtualConsole.cpp; `Framebuffer.Screen` puts them together with the sheet of Console. The font, which the
--   build generates, is a parameter; its width is from 1 to 32.
-- - IntToString: kernel/utils/inttostring.cpp, on fuel for the digits; more than the magnitude is enough.
-- - Smbios: kernel/smbios/smbios.h, smbios.cpp and smbios_tostring.cpp. A structure is a record of its
--   fields, which `Smbios.Layout` reads from memory. `Smbios.Types` has the enumerations, and `Smbios.Walk`
--   says what a table of well-formed structures is. The toString methods use `Stdio.Print.ksnprintf` and the
--   memory of CString.
-- - Console: kernel/framebuffer/VirtualConsole.cpp, the buffer and the cursor, with `memmove` and
--   `memset` of CString. `Console.Sheet` has a sheet without end, on which a text is typed. The copy of the
--   text that goes to the serial port is in Kernel.
-- - Panic: kernel/utils/panic.cpp, the loop of `panicf` and the frame walk of `dumpStack`. A round of
--   the loop that stores behind its buffer is undefined.
-- - MemMap: kernel/memory/MemMap.cpp, the type names and the totals by type.
-- - Kernel: the console, the framebuffer and the serial port together. `print` is the whole of `appendText`,
--   with `writeToSerial` and `updateScreen`, over one memory that holds the text and both buffers, on fuel
--   above the length of the text; `Kernel.Start` has `VirtualConsole::init` with `Framebuffer::init` and
--   `postInit`, `Kernel.Tables` `SMBIOS::init` and `dumpTable` with what they print, and `Kernel.Main`
--   `MemMap::init` with what it prints and `kmain` of kernel/main.cpp.
--
-- Not modelled: the messages that paging prints on its way, the boot protocol, devices, halt and the build,
-- which are input and output; the headers of the standard library.
pub mod Aarch64
pub mod Base
pub mod Bytes
pub mod CString
pub mod Console
pub mod Framebuffer
pub mod IntToString
pub mod Kernel
pub mod MemMap
pub mod MemPool
pub mod Paging
pub mod Panic
pub mod Serial
pub mod Smbios
pub mod Stdio
