-- ===== src/Lib.antt =====
-- The ASOR hypervisor: a console, memory allocators, page tables of the host and of the guest, and the
-- loop that runs a guest under Intel VMX.
--
-- The program boots into asor_entry (x86/asor.c). It calls setup_vm (lib/vmalloc.c), which gives the
-- memory that lib/alloc_phys.c has left to lib/alloc_page.c and switches paging on with the tables of
-- lib/x86/vm.c; it registers the operations of its architecture (core/virt.c) and enables
-- virtualization through them: x86/vmx.c sets up the processor, x86/ept.c builds the page tables of
-- the guest from pages of lib/alloc_page.c, and vmx_run enters the guest until it asks to leave.
-- driver/monitor.c is the text console.
--
-- Which file models which part:
--   Monitor     driver/monitor.c. A Monitor is the framebuffer, the cursor and the log of the port
--               writes; put, clear, write_color, write_hex and write_dec are the functions
--               monitor_put, monitor_clear and so on. Monitor/Terminal is the abstract terminal.
--   Memory      memory as 64-bit words, virt_to_phys and phys_to_virt (lib/x86/asm/io.h).
--   PageAlloc   lib/alloc_page.c. Pages is the memory and the head of the free list; the functions
--               have the source's names, and the loops are link_pages and search_run.
--   AllocPhys   lib/alloc_phys.c. Phys holds the static variables; log_region is the write to the
--               log of regions.
--   Ept         x86/ept.c. A table is a page of Memory; install_loop and make_table are the loop of
--               install_ept_entry and its body, map_while a loop of setup_ept_range. Ept/Walk is the
--               processor's translation, Ept/Access the permissions that the entries on the way leave
--               together, Ept/Tables what makes tables well formed.
--   SetupEpt    x86/ept.c: setup_eptp is __setup_ept. EptState joins the pages of Ept with the controls
--               of Vmcs, the static variables and what is printed.
--   InitVmx     x86/vmx.c: is_vmx_supported and init_vmx. VmxState is the processor's registers, the
--               pages and the variables; new_page is alloc_page with the memset behind it.
--   Virt        core/virt.c, for operations over any state.
--   Vmx         x86/vmx.c: hypercall, exit_handler, entry_failure_handler, vmx_enter_guest, vmx_run.
--   Vmcs        x86/vmx.c: init_vmcs and what it calls. Setup is the static variables of the controls
--               and the fields of the VMCS, and Vmcs/Encoding the names of the fields.
--   VirtEnable  x86/vmx.c: x86_virt_enable and the allocation of init_vmcs. Machine holds every variable
--               of the parts above once, and setup_of, ept_of and run_of are the views the parts have of
--               it; switch_on is x86_virt_enable from init_vmx on, leave_vmx what follows vmx_run.
--               VirtEnable/Contract is what the processor demands, of the controls and of the state in
--               the VMCS, and what it promises.
--   Paging      lib/x86/vm.c: the hypervisor's own page tables, by the names of the code; the loops are
--               install_pte_loop with its body make_directory, find_loop, install_pages_loop,
--               large_pages_loop and any_present_loop. Mmu is the pages and the control registers.
--   VmAlloc     lib/vmalloc.c: Vm joins the physical allocator, the page tables and the static
--               variables; map_frames, alloc_frames and free_frames are the loops of vmap, vm_memalign
--               and vm_free, and give_pages is what setup_vm does when no page is free yet.
--   Alloc       lib/alloc.c: memalign and malloc over a given allocator, and what free reads.
--   CString     lib/string.c: memset, memcpy, memmove and memcmp on a memory of bytes; CString/Strings
--               has the functions on strings that a NUL ends, from strlen to simple_glob.
--   Serial      lib/x86/io.c: puts on the serial line. Ports is the machine's port instructions, a
--               parameter; Serial/Uart says what a UART does with them, Serial/Line is one.
--   Report      lib/report.c: the counters of test results and report_summary; a message is the text of
--               its format. Report/Summary says what a sequence of reports amounts to.
--   Util        lib/util.c: parse_keyval over the string functions.
--   Printf      lib/printf.c: PStream is pstream_t with the memory behind it; format_loop, directive
--               and convert are the loop of vsnprintf, the jumps to morefmt and the conversions.
--               Printf/Console has printf, warning and error, Printf/Stream the text of a stream;
--               Printf/Rendering says what a format and its arguments stand for.
--   Base        numbers, lists, Boolean tests, bit operations and ALIGN of lib/libcflat.h.
-- Each of them has a module Tests with runs at concrete inputs.
--
-- Machine integers are native numbers with the wrap-around written out. A failed assertion, a read
-- or write outside an array, and a loop without fuel are none. The fuel: free_pages gets the number
-- of pages that it links and write_dec 11 rounds, which is more than a 32-bit number has digits;
-- map_while and the loops of the host get more fuel than pages to map; vmx_run more than the rounds
-- that resume; a loop over a string more than its characters, and the wait of the serial line as many
-- polls as the line is busy.
--
-- The processor and the guest are a parameter of the run loop, and so are a guest's handlers, which
-- are function pointers; the port instructions of the serial line and the size of the memory that the
-- firmware reports are parameters too. Not modelled: asor_entry and the default guest; command lines,
-- the loader of ELF files, and the prefixes of test reports; other devices and PCI; the other architectures; and
-- lib/libfdt, which is a copy of another project. Locks are left out, since one processor runs the code.
pub mod Base
pub mod Monitor
pub mod Memory
pub mod PageAlloc
pub mod AllocPhys
pub mod Ept
pub mod Virt
pub mod Alloc
pub mod CString
pub mod Serial
pub mod Report
pub mod Util
pub mod Printf
pub mod Vmcs
pub mod SetupEpt
pub mod InitVmx
pub mod Vmx
pub mod Paging
pub mod VmAlloc
pub mod VirtEnable
