-- ===== src/Examples.antt =====
-- The theorems at concrete inputs, over simple models of what the code takes from elsewhere.
mod Models
mod Hosts
mod ClientV1
mod Errors
mod Folders
mod Local
mod LocalJobs
mod Items
mod Interface
mod Jobs
mod Uploader
mod Downloader
mod Upload
mod Account
mod Handler
mod Listing
mod Peers
mod Validate
