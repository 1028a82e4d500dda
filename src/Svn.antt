-- ===== src/Svn.antt =====
-- internal/wporg/svn.go: the Subversion listing and log of WordPress.org. An XML document is what
-- xml.Unmarshal makes of it, and a date a number of nanoseconds, missing where it does not parse.
pub mod Listing
pub mod Paths
pub mod Tags
pub mod Log
mod Tests
