-- ===== src/Lib.antt =====
-- A model of mergerfs, a FUSE file system that shows several branches (directories of other file
-- systems) as one tree. Paths below are from the root of the repository.
--
-- How the parts work together. The kernel asks a handler (`FUSE::rename` and its like, src/fuse_*.cpp)
-- for an operation on a path of the pool. The handler asks a policy (src/policy_*.cpp) which of the
-- configured branches (src/branch.hpp) are to serve it. Every policy has a function for each category
-- of operations: create, action and search. The handler then makes the same system call on the branches
-- that the policy gave, after cloning the parent directory to them where something is created
-- (src/fs_clonepath.cpp), and folds the results into one answer with `error::calc` (src/rv.hpp).
-- unlink and rename also drop the path from the cache of the `open` policy (src/policy_cache.cpp), which
-- open asks first. A write that finds no space moves the file to another branch (src/fs_movefile.cpp)
-- and goes on there. The configuration (src/config.cpp) is read and changed through the extended
-- attributes of one file, the control file (src/fuse_getxattr.cpp, src/fuse_setxattr.cpp).
--
-- Which file models what:
--   Errno           src/errno.hpp, src/rv.hpp: the error numbers that the program compares, error::calc
--   Strings         src/str.cpp
--   Numbers         src/num.cpp, and the numbers that src/fuse_getxattr.cpp writes
--   Branch          src/branch.hpp, src/branch.cpp: the modes, and ro, nc, ro_or_nc
--   Branch/Text     src/branch.cpp: the branches as text; realpathize of src/fs.cpp
--   StatVfs         src/statvfs_util.hpp: the read-only flag and the spaces, as 64-bit products
--   StatVfs/Cache   src/fs_statvfs_cache.cpp: the cache itself
--   Policy/Types    src/category.hpp, src/policy.hpp, src/policy_error.hpp, src/fs_exists.hpp,
--                   src/fs_info.cpp, src/fs_statvfs_cache.cpp (its three readers)
--   Policy/Guard    the tests that the loops of the policies make on a branch, in the source's order
--   Policy/Every    src/policy_all.cpp, src/policy_epall.cpp
--   Policy/First    src/policy_ff.cpp, src/policy_epff.cpp
--   Policy/Scan     the loop that the policies with a measure share
--   Policy/MostFree, Policy/LeastFree, Policy/LeastUsed
--                   src/policy_mfs.cpp, src/policy_epmfs.cpp; lfs, eplfs; lus, eplus
--   Policy/Newest   src/policy_newest.cpp
--   Policy/Random   src/policy_rand.cpp, src/policy_eprand.cpp, src/policy_erofs.cpp,
--                   src/policy_invalid.cpp
--   Policy/Kind, Policy/Table
--                   src/policy.hpp, src/policy.cpp: the table and the lookup by name
--   Policy/Candidates, Policy/Spec
--                   what the policies promise: the candidates among the branches, the reasons why the
--                   others are passed over, and the choice made of the candidates
--   Path            src/fs_path.cpp: dirname
--   Os, Os/Laws     the system calls, and what is assumed of them
--   ClonePath       src/fs_clonepath.cpp
--   PolicyCache     src/policy_cache.cpp
--   Settings        src/config.hpp, src/config.cpp, src/fusefunc.cpp, src/category.cpp
--   Settings/ControlFile
--                   src/fuse_setxattr.cpp and src/fuse_getxattr.cpp: the control file
--   Files           the calls on open files; Files/Find: findonfs and mfs of src/fs.cpp; Files/Clone:
--                   src/fs_clonefile.cpp; Files/Trace: the calls of a copy that succeeds
--   Move            src/fs_movefile.cpp (Move/Trace: what a move has done when it succeeds)
--   Copy            src/fs_copyfile.cpp
--   Fuse/Config     src/config.hpp: what the handlers that follow read
--   Fuse/Action     src/fuse_unlink.cpp, src/fuse_rmdir.cpp, src/fuse_chmod.cpp, src/fuse_chown.cpp,
--                   src/fuse_truncate.cpp, src/fuse_utimens.cpp, src/fuse_removexattr.cpp, and
--                   src/fuse_setxattr.cpp but for the control file
--   Fuse/Create     src/fuse_mkdir.cpp, src/fuse_mknod.cpp, src/fuse_symlink.cpp, src/fs_acl.cpp
--   Fuse/Rename     src/fuse_rename.cpp
--   Fuse/Link       src/fuse_link.cpp
--   Fuse/Open       src/fuse_open.cpp, src/fs_cow.cpp, src/fs_mktemp.cpp, src/fuse_create.cpp,
--                   src/fuse_write.cpp
--   Fuse/Readdir    src/fuse_readdir.cpp, src/hashset.hpp
--   Fuse/Results    the answers and the effects of the handlers
--   Tests           runs of the code, and the theorems at concrete inputs
--
-- State and errors. A string is a list of bytes. A call that returns -1 with an `errno` is
-- `failure e`. A policy maps a view of the branches (what lstat and statvfs would answer while it
-- runs), the configuration and the vector that it is to fill, to its result and the vector. A handler
-- maps the configuration and a state (the world and the cache of `open`) to its answer and the next
-- state. Everything that the operating system does is the record `Os`: each system call takes the
-- world and gives its result and the next world. The record also holds `std::random_shuffle` and the
-- copies of attributes. `IsLawful` says what is assumed of it: a shuffle permutes, and a call that
-- fails sets a positive `errno`. The calls on open files are the record `FileOs`, the library's `glob`,
-- `realpath` and `fnmatch` the record `Globbing`, and the FUSE library's own caches `Timeouts`.
--
-- Two things that the program does are modelled as they are, and differ from what it means or says: the
-- search of eplus, which lus uses too, begins with 0 as the least space and finds nothing; and where no
-- branch is left for a creation, a read-only branch is the reason that is given (EROFS) also where
-- another was passed over for `minfreespace`, though README.md says that ENOSPC is returned then.
--
-- Loops are structural recursion on lists. The recursion of fs::clonepath on dirname is on
-- accessibility by length, since dirname of a path is shorter. The loops of src/fs_copyfile.cpp go on as
-- long as the system lets them: they are given the turns of the system's calls, one for each, and have
-- no result when these run out before the loop ends; a theorem says how many are enough. The ten tries of
-- fs::mktemp are counted. Widths: the spaces
-- are taken modulo 2 ^ 64, and the differences of times in the cache too; time_t has 64 bits.
--
-- Not modelled: the locks and the change of the thread's user around each handler, the parser of the
-- options, the handlers that only read the pool but for readdir, those that work on an open file but for write,
-- and the copy of libfuse. A policy sees
-- what `statvfs` answers as part of its view: the cache of `statvfs` is modelled by itself.
pub mod Base
pub mod Errno
pub mod Branch
pub mod StatVfs
pub mod Policy
pub mod Strings
pub mod Numbers
pub mod Settings
pub mod Files
pub mod Move
pub mod Copy
pub mod Path
pub mod Os
pub mod ClonePath
pub mod PolicyCache
pub mod Fuse
mod Tests
