-- ===== src/Examples.antt =====
-- Tests of the definitions on concrete inputs, and the theorems applied to such inputs.
mod Data
mod Store
mod Access
mod Templates
mod Grants
mod Requests
mod Pages
mod Clouds
mod Jobs
mod Runs
mod Things
mod Handlers
mod Launches
mod Lists
