-- ===== src/Lib.antt =====
-- Arduino CLI: how sketches find their boards, tools and libraries.
--
-- The program names a board by an FQBN (pkg/fqbn), keeps settings in maps that remember the order of
-- insertion (internal/orderedmap) and in typed nested maps (internal/go-configmap), finds the platform of a
-- board (internal/arduino/cores/packagemanager), picks the download of a tool for a host
-- (internal/arduino/cores/tools.go) and resolves each C++ header of a sketch to a library
-- (internal/arduino/libraries and its librariesresolver). The build reads what the compiler and ctags
-- write (internal/arduino/builder), clients hold instances of the services (commands/internal/instances)
-- and search the index of libraries by queries (commands).
--
-- Files and what they model:
--   Fqbn            pkg/fqbn/fqbn.go: Parse, String, StringWithoutConfig, Match, Clone.
--   OrderedMap      internal/orderedmap/orderedmap.go: a record of the conversion, the table and the
--                   list of keys; Set removes an old key first, so that it goes to the end.
--   Properties      the map of go-properties-orderedmap as a record of operations and laws; the board
--                   names take it as a parameter, and Properties/Ordered fills it with OrderedMap.
--   Tools           internal/arduino/cores/tools.go: GetFlavourCompatibleWith and its two tests.
--   Regex           the regular expressions of tools.go, matched by derivatives.
--   Filenames       internal/arduino/utils/filenames.go: SanitizeName.
--   Libraries       internal/arduino/libraries: libraries.go, librarieslist.go,
--                   libraries_location.go.
--   Resolver        internal/arduino/libraries/librariesresolver/cpp.go: the scans, ComputePriority,
--                   AlternativesFor and ResolveFor.
--   Cpp             internal/arduino/builder/cpp: cpp.go, and depfile.go in Cpp/DepFile. The position in
--                   a text is the rest of it.
--   Instances       commands/internal/instances/instances.go: the table, the next id as the bit pattern of
--                   an int32, and the managers that Destroy was called on.
--   Search          commands/utility_libraries_index_search_matcher.go and internal/arduino/utils/search.go:
--                   the tokens of a query and the match of a library.
--   Ctags           ctags_parser.go below internal/arduino/builder/internal/preprocessor/internal/ctags: the
--                   parsing of a row, and the passes that skip tags; the pointers to tags are the tags.
--   SourceFile      source_file.go below internal/arduino/builder/internal/detector: the queue of source files,
--                   and ObjFileIsUpToDate over a file system given as functions of the path.
--   Detector        internal/arduino/builder/internal/detector: the search for the libraries of a sketch in
--                   detector.go, from FindIncludes (Start) over the queue of source files to the rounds of one
--                   file; the cache of its steps (cache.go) in Cache, the header in the errors of gcc in Finder,
--                   the files of a folder in Queue.
--   Diagnostics     parser_gcc.go and parser.go below internal/arduino/builder/internal/diagnostics. A pointer
--                   to the current message is the kind of the newest message.
--   Config          internal/go-configmap: the nested map of settings and its reads; the types of values and
--                   their conversion in Convert (an element of a slice can be nil), settings from arguments and the environment in Cli, Merge.
--                   A float64 is the number of its bits, and its conversions are parameters.
--   Packages        internal/arduino/cores/packagemanager/package_manager.go: the installed release of a platform,
--                   ResolveFQBN up to the platforms of the build, and the platforms of the core and the
--                   variant; Boards has the build properties of internal/arduino/cores/board.go, and Options
--                   what they are.
--   Prelude         Boolean tests, lists, equality and Go's built-in map.
--   Strings         the parts of Go's strings, strconv and unicode that the program uses.
--
-- Conventions. A text is a list of code points. Pointers that Go compares are numbers. A panic is
-- an outer none, an error a constructor of the model's own. Loops are structural recursion on the list
-- that they walk and need no fuel, but for the search for libraries: its two loops run on fuel, and the
-- bounds that are proved to be enough are the number of libraries, for the rounds of one file, and
-- the number of files that the sketch and all libraries can queue. A number that starts at -1 in the source is
-- kept plus one.
--
-- Parameters. closestmatch, golang.org/x/text, go-paths-helper, the Unicode tables of the search and
-- sort.Slice are arguments of the definitions that use them, and a law is a hypothesis where a theorem
-- needs it. What the search for libraries asks of the file system, of go-paths-helper and of the
-- preprocessor's tasks are the fields of the record World (Detector/Outside); the file system is that of one
-- moment, but for the dependency files that a task writes. ToLower is that of ASCII in the resolver, and an argument in the search.
--
-- Not modelled: the file system, downloads, gRPC, subprocesses, JSON encoding and logging, and the goroutines
-- of the pre-runner, which runs tasks ahead of the search. The overlay of the properties of a build, uploads, the
-- size of a sketch and the index of packages are left out for now.
pub mod Config
pub mod Cpp
pub mod Ctags
pub mod Detector
pub mod Diagnostics
pub mod Filenames
pub mod Fqbn
pub mod Instances
pub mod Libraries
pub mod OrderedMap
pub mod Packages
pub mod Prelude
pub mod Properties
pub mod Regex
pub mod Resolver
pub mod Search
pub mod SourceFile
pub mod Strings
pub mod Tools
